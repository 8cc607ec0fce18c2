-- ===== src/ResolutionV2/Resolver/Fresh.antt =====
-- authAndApplyEvents of stateresolutionv2.go: the contents that events are judged by, and the events
-- resolved so far.
use gomatrixserverlib.Prelude.{
  ap, ◌≡◌, refl, arith, String, List, [], ◌∷◌, false, inl, inr, Bool-cases, ◌∙◌, sym, Option,
}
use gomatrixserverlib.Result.{ok_inj, Result, ok, err, panic, Check, >>=-eq-ok}
use gomatrixserverlib.Auth.Allowed.Shared.{Follows, RuleStep, kept, opened, closed, allowed-Follows}
use gomatrixserverlib.Event.{Event}
use gomatrixserverlib.Auth.Provider.{AuthEventProvider}
use gomatrixserverlib.Auth.Context.{AllowerContext, new_allower_context}
use gomatrixserverlib.Auth.Membership.Checks.{VerifyJson}
use gomatrixserverlib.Auth.Allowed.{allowed}
use gomatrixserverlib.ResolutionV2.{Resolved, resolver_provider, apply_event}
use gomatrixserverlib.ResolutionV2.Resolver.{
  StateResolver, current, reloads, reload, apply_if, auth_and_apply_event, auth_and_apply_events,
}

-- The contents of a context are those that loading them now gives, but for a join rule "restricted"
-- that a check has made "public" or "invite".
pub record IsFresh (r : StateResolver) : Type 0 where
  pub loaded : AllowerContext
  pub loads : new_allower_context (resolver_provider r.resolved) ≡ ok loaded
  pub create : r.allower.create ≡ loaded.create
  pub power_levels : r.allower.power_levels ≡ loaded.power_levels
  pub allow : r.allower.join_rule.allow ≡ loaded.join_rule.allow
  pub rule : RuleStep loaded.join_rule.join_rule r.allower.join_rule.join_rule

RuleStep_trans : {s t u : String} → RuleStep s t → RuleStep t u → RuleStep s u
RuleStep_trans kept q = q
RuleStep_trans (opened h) kept = opened h
RuleStep_trans (opened h) (opened e) = opened h
RuleStep_trans (opened h) (closed e) = closed h
RuleStep_trans (closed h) kept = closed h
RuleStep_trans (closed h) (opened e) = opened h
RuleStep_trans (closed h) (closed e) = closed h

-- Loading does not read members and invites.
loads_alike :
    (p : AuthEventProvider) (member third_party_invite : String → Result (Option Event))
    (c : AllowerContext)
    → new_allower_context p ≡ ok c
    → new_allower_context (record p { member = member; third_party_invite = third_party_invite })
      ≡ ok (record c {
        provider = record p { member = member; third_party_invite = third_party_invite };
      })
unfolding new_allower_context
loads_alike p member third_party_invite c h = ground arith

-- A context as it was loaded is fresh.
pub reloaded-IsFresh :
    (resolved : Resolved) (c : AllowerContext)
    → new_allower_context (resolver_provider resolved) ≡ ok c
    → IsFresh (record { allower = c; resolved = resolved })
reloaded-IsFresh resolved c h = record {
  loaded = c;
  loads = h;
  create = refl;
  power_levels = refl;
  allow = refl;
  rule = kept;
}

-- Two partial states with the same create, power levels and join rules events.
record IsSame (s t : Resolved) : Type 0 where
  create : s.create ≡ t.create
  power_levels : s.power_levels ≡ t.power_levels
  join_rules : s.join_rules ≡ t.join_rules

apply_event-IsSame :
    (resolved : Resolved) (event : Event)
    → reloads event.event_type ≡ false
    → IsSame (apply_event resolved event) resolved
unfolding apply_event
apply_event-IsSame resolved event h = record {
  create = ground (arith, h);
  power_levels = ground (arith, h);
  join_rules = ground (arith, h);
}

same_loads :
    (s t : Resolved) (c : AllowerContext)
    → IsSame s t
    → new_allower_context (resolver_provider t) ≡ ok c
    → new_allower_context (resolver_provider s) ≡ ok (record c { provider = resolver_provider s })
unfolding resolver_provider
same_loads s t c same h =
    let p = resolver_provider t in
    let q = resolver_provider s in
    let as_p : q ≡ record p { member = q.member; third_party_invite = q.third_party_invite } = λ i.
      record {
        create = ok (same.create i);
        join_rules = ok (same.join_rules i);
        power_levels = ok (same.power_levels i);
        member = q.member;
        third_party_invite = q.third_party_invite;
      } in
    ap new_allower_context as_p
    ∙ loads_alike p q.member q.third_party_invite c h
    ∙ ap (λ x. ok (record c { provider = x })) (sym as_p)

Follows-IsFresh :
    (r : StateResolver) (after : AllowerContext) (resolved : Resolved)
    → IsFresh r
    → Follows (current r) after
    → IsSame resolved r.resolved
    → IsFresh (record { allower = after; resolved = resolved })
unfolding current
Follows-IsFresh r after resolved fresh (step, only) same = record {
  loaded = record (fresh.loaded) { provider = resolver_provider resolved };
  loads = same_loads resolved r.resolved fresh.loaded same fresh.loads;
  create = ap (λ c. c.create) only ∙ fresh.create;
  power_levels = ap (λ c. c.power_levels) only ∙ fresh.power_levels;
  allow = ap (λ c. c.join_rule.allow) only ∙ fresh.allow;
  rule = RuleStep_trans fresh.rule step;
}

reload-IsFresh :
    (r : StateResolver) (event : Event) (after : AllowerContext) (next : StateResolver)
    → IsFresh r
    → Follows (current r) after
    → reload event after (apply_event r.resolved event) ≡ ok next
    → IsFresh next
reload-IsFresh r event after next fresh follows h = elim (Bool-cases (reloads event.event_type)) [
  | inl b ↦
      let (c, loads, done) =
        >>=-eq-ok (new_allower_context (resolver_provider (apply_event r.resolved event)))
          (λ allower. ok (record { allower = allower; resolved = apply_event r.resolved event }))
          (rw b at h) in
      rw⁻¹ (ok_inj done) (reloaded-IsFresh (apply_event r.resolved event) c loads)
  | inr b ↦ rw⁻¹ (ok_inj (rw b at h)) (
      Follows-IsFresh r after (apply_event r.resolved event) fresh follows
        (apply_event-IsSame r.resolved event b))
]

if-IsFresh :
    (r : StateResolver) (event : Event) (judged : AllowerContext × Check) (next : StateResolver)
    → IsFresh r
    → Follows (current r) judged.0
    → apply_if r event judged ≡ ok next
    → IsFresh next
if-IsFresh r event (after, ok u) next fresh follows h =
    reload-IsFresh r event after next fresh follows h
if-IsFresh r event (after, err e) next fresh follows h = rw⁻¹ (ok_inj h) (
    Follows-IsFresh r after r.resolved fresh follows
      (record { create = refl; power_levels = refl; join_rules = refl }))
if-IsFresh r event (after, panic) next fresh follows h = cc

-- If authAndApplyEvents starts with a context whose contents are those that loading them from the
-- resolved events gives, but for a join rule "restricted" that a check has made "public" or
-- "invite", and does not panic, the same holds after all the events, accepted and rejected.
pub auth_and_apply_events-IsFresh :
    (verify_json : VerifyJson) (events : List Event) (r last : StateResolver)
    → IsFresh r
    → auth_and_apply_events verify_json r events ≡ ok last
    → IsFresh last
unfolding auth_and_apply_events auth_and_apply_event
auth_and_apply_events-IsFresh verify_json [] r last fresh h = rw⁻¹ (ok_inj h) fresh
auth_and_apply_events-IsFresh verify_json (event ∷ events) r last fresh h =
    let (next, first, rest) =
      >>=-eq-ok (apply_if r event (allowed verify_json (current r) event))
        (λ next. auth_and_apply_events verify_json next events) h in
    auth_and_apply_events-IsFresh verify_json events next last
      (if-IsFresh r event (allowed verify_json (current r) event) next fresh
        (allowed-Follows verify_json (current r) event) first)
      rest
