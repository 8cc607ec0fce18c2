-- ===== src/Auth/Allowed/Shared.antt =====
-- `allowed` of eventauth.go and the context that the events of a state resolution share.
use gomatrixserverlib.Prelude.{
  subst, Option, none, some, Bool, true, false, ◌&&◌, if◌then◌else◌, sym, Bool-cases, inl, inr,
  ◌==◌, ◌||◌, ◌≡◌, refl, arith, eq_iff, String, ◌⊎◌,
}
use gomatrixserverlib.Result.{Check, Result, ok, err, panic}
use gomatrixserverlib.Auth.Allowed.{judge, allowed, member_event_allowed, with_join_rule}
use gomatrixserverlib.Event.{
  m_room_aliases, m_room_create, m_room_power_levels, m_room_redaction, ban, Event, m_room_member,
  join, leave, invite, public,
}
use gomatrixserverlib.Content.Member.{MemberThirdPartyInvite}
use gomatrixserverlib.Auth.Membership.{MembershipAllower, new_membership_allower}
use gomatrixserverlib.Auth.Membership.Checks.{
  after_first_join, by_target, membership_case, Judged, judge_join, VerifyJson, membership_allowed,
  membership_allowed_self, membership_allowed_self_for_restricted_join,
}
use gomatrixserverlib.Version.{knock, restricted}
use gomatrixserverlib.Auth.Context.{AllowerContext}

-- The join rule before and after a check: as it was, or, from "restricted", "public" or "invite".
pub data RuleStep (before : String) : String → Type 0 where
  kept : RuleStep before before
  opened : before ≡ restricted → RuleStep before public
  closed : before ≡ restricted → RuleStep before invite

module _ (m : MembershipAllower) where
  abbrev rule : String
  rule = m.join_rule.join_rule

  restricted_rule :
      (new : String)
      → membership_allowed_self_for_restricted_join m ≡ ok new
      → (new ≡ public) ⊎ (new ≡ invite)
  unfolding membership_allowed_self_for_restricted_join
  restricted_rule new h = ground arith

  judge_join-RuleStep :
      (r : Result String)
      → ((new : String) → r ≡ ok new → RuleStep rule new)
      → RuleStep rule (judge_join m r).0
  judge_join-RuleStep (ok new) step = step new refl
  judge_join-RuleStep (err e) step = kept
  judge_join-RuleStep panic step = kept

  restricted-RuleStep :
      rule ≡ restricted
      → (new : String) → membership_allowed_self_for_restricted_join m ≡ ok new
      → RuleStep rule new
  restricted-RuleStep r new h = elim (restricted_rule new h) [
    | inl p ↦ rw p (opened r)
    | inr p ↦ rw p (closed r)
  ]

  either :
      (b : Bool) (x y : Judged)
      → RuleStep rule x.0
      → RuleStep rule y.0
      → RuleStep rule (if b then x else y).0
  either true x y l r = l
  either false x y l r = r

  -- The rule that a join is judged by.
  joined-RuleStep :
      (b : Bool)
      → (new : String)
      → (if b && rule == restricted then membership_allowed_self_for_restricted_join m else ok rule)
        ≡ ok new
      → RuleStep rule new
  joined-RuleStep b new h = elim (Bool-cases (b && rule == restricted)) [
    | inl c ↦ restricted-RuleStep (ground (c, arith, eq_iff rule restricted)) new (rw c at h)
    | inr c ↦ let same : rule ≡ new = ground (rw c at h, arith) in rw (sym same) kept
  ]

  self-RuleStep : RuleStep rule (membership_allowed_self m).0
  unfolding membership_allowed_self
  self-RuleStep =
      either (m.old_member.membership == leave && m.new_member.membership == leave) _ _ kept (
        either (m.new_member.membership == knock) _ _ kept (
          either (m.new_member.membership == join) _ _
            (judge_join-RuleStep
              (if m.old_member.membership == leave && rule == restricted
                then membership_allowed_self_for_restricted_join m
                else ok rule)
              (joined-RuleStep (m.old_member.membership == leave)))
            (either (m.new_member.membership == leave) _ _ kept (
              either (m.new_member.membership == invite || m.new_member.membership == ban) _ _ kept
                kept))))

  target-RuleStep : RuleStep rule (by_target m).0
  target-RuleStep = either (m.target_id == m.sender_id) _ _ self-RuleStep kept

  case-RuleStep :
      (verify_json : VerifyJson) (i : Option MemberThirdPartyInvite)
      → RuleStep rule (membership_case verify_json m i).0
  case-RuleStep verify_json none = target-RuleStep
  case-RuleStep verify_json (some i) =
      either (m.new_member.membership == invite) _ _ kept target-RuleStep

  first-RuleStep :
      (verify_json : VerifyJson) (first : Result Bool)
      → RuleStep rule (after_first_join verify_json m first).0
  first-RuleStep verify_json (ok true) = kept
  first-RuleStep verify_json (ok false) = case-RuleStep verify_json m.new_member.third_party_invite
  first-RuleStep verify_json (err e) = kept
  first-RuleStep verify_json panic = kept

  membership-RuleStep :
      (verify_json : VerifyJson) (event : Event)
      → RuleStep rule (membership_allowed verify_json m event).0
  unfolding membership_allowed
  membership-RuleStep verify_json event = first-RuleStep verify_json _

context-new_membership_allower :
    (a : AllowerContext) (event : Event) (m : MembershipAllower)
    → new_membership_allower a event ≡ ok m
    → m.allower_context ≡ a
unfolding new_membership_allower
context-new_membership_allower a event m h = ground arith

-- A context after a check that was made with another one: only the join rule differs.
abbrev pub Follows : AllowerContext → AllowerContext → Type 0
Follows a after =
    RuleStep a.join_rule.join_rule after.join_rule.join_rule
    × (after ≡ with_join_rule a after.join_rule.join_rule)

module _ (verify_json : VerifyJson) (a : AllowerContext) (event : Event) where
  judge-Follows :
      (r : Result MembershipAllower)
      → new_membership_allower a event ≡ r
      → Follows a (judge verify_json a event r).0
  judge-Follows (err e) h = (kept, refl)
  judge-Follows panic h = (kept, refl)
  judge-Follows (ok m) h =
      let same = context-new_membership_allower a event m h in
      let step = membership-RuleStep m verify_json event in
      (
        subst (λ c. RuleStep c.join_rule.join_rule (membership_allowed verify_json m event).0) same
            step,
        refl,
      )

  choose :
      (b : Bool) (x y : AllowerContext × Check)
      → Follows a x.0
      → Follows a y.0
      → Follows a (if b then x else y).0
  choose true x y l r = l
  choose false x y l r = r

  -- A check of any event leaves the context as it was, but that it may change the join rule from
  -- "restricted" to "public" or to "invite".
  pub allowed-Follows : Follows a (allowed verify_json a event).0
  unfolding allowed member_event_allowed
  allowed-Follows =
      let still : Follows a a = (kept, refl) in
      let t = event.event_type in
      choose (t == m_room_create) _ _ still (
        choose (t == m_room_aliases) _ _ still (
          choose (t == m_room_member) _ _ (judge-Follows (new_membership_allower a event) refl) (
            choose (t == m_room_power_levels) _ _ still
              (choose (t == m_room_redaction) _ _ still still))))
