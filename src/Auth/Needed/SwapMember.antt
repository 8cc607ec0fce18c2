-- ===== src/Auth/Needed/SwapMember.antt =====
-- The checks of a membership event (eventauth.go) under another provider and another join rule.
use gomatrixserverlib.Prelude.{
  ◌∙◌, sym, ◌≡◌, ◌≢◌, refl, String, ap, Bool, true, false, Bool-cases, inl, inr, ◌==◌, Option, none,
  some, eq_iff, subst,
}
use gomatrixserverlib.Result.{ok_inj, Result, ok, err, panic, Check, ◌>>=◌}
use gomatrixserverlib.Auth.Membership.{
  target_of, third_party_of, allower_for, MembershipAllower, new_membership_allower,
}
use gomatrixserverlib.Auth.Membership.Checks.{
  VerifyJson, membership_allowed, membership_allowed_other, other_leave, other_invite, other_ban,
  by_target, membership_case, after_first_join, membership_guards, is_first_join,
  membership_allowed_from_third_party_invite,
}
use gomatrixserverlib.Version.{knock}
use gomatrixserverlib.Event.{join, Event, invite}
use gomatrixserverlib.Content.Member.{
  MemberContent, MemberThirdPartyInvite, new_member_content_from_event,
  new_member_content_from_auth_events,
}
use gomatrixserverlib.Content.JoinRules.{JoinRuleContent}
use gomatrixserverlib.Content.ThirdPartyInvite.{new_third_party_invite_content_from_auth_events}
use gomatrixserverlib.Auth.Provider.{AuthEventProvider}
use gomatrixserverlib.Auth.Context.{AllowerContext}
use gomatrixserverlib.Auth.Allowed.{judge, member_event_allowed}
use gomatrixserverlib.Auth.Needed.Swap.{swap, member_alike}
use gomatrixserverlib.Auth.Needed.SwapSelf.{moved, Asked, self_swap, both}

module _ (verify_json : VerifyJson) (m : MembershipAllower) (q : AuthEventProvider)
    (rule : JoinRuleContent) (asked : Asked m q rule) where
  abbrev n : MembershipAllower
  n = moved m q rule

  other_swap : membership_allowed_other m ≡ membership_allowed_other n
  unfolding membership_allowed_other other_leave other_ban other_invite
  other_swap = elim (Bool-cases (m.new_member.membership == invite)) [
    | inl i ↦
        subst (λ r. membership_allowed_other m ≡ membership_allowed_other (moved m q r))
          (asked.invite_needed ((eq_iff m.new_member.membership invite).0 i)) refl
    | inr i ↦ rw i refl
  ]

  target_swap : (by_target m).1 ≡ (by_target n).1
  target_swap = both (m.target_id == m.sender_id) _ _ _ _ (self_swap m q rule asked) other_swap

  case_swap :
      (i : Option MemberThirdPartyInvite)
      → (membership_case verify_json m i).1 ≡ (membership_case verify_json n i).1
  unfolding membership_allowed_from_third_party_invite
  case_swap none = target_swap
  case_swap (some i) = both (m.new_member.membership == invite) _ _ _ _ refl target_swap

  first_swap :
      (first : Result Bool)
      → (after_first_join verify_json m first).1 ≡ (after_first_join verify_json n first).1
  first_swap (ok true) = refl
  first_swap (ok false) = case_swap m.new_member.third_party_invite
  first_swap (err e) = refl
  first_swap panic = refl

  pub membership_swap :
      (event : Event)
      → (membership_allowed verify_json m event).1 ≡ (membership_allowed verify_json n event).1
  unfolding membership_allowed is_first_join
  membership_swap event = first_swap (membership_guards m event)

-- The verdict of the checks on a membership allower that may have failed to load.
abbrev verdict : VerifyJson → Event → Result MembershipAllower → Check
verdict verify_json event (ok m) = (membership_allowed verify_json m event).1
verdict verify_json event (err e) = err e
verdict verify_json event panic = panic

judge-verdict :
    (verify_json : VerifyJson) (a : AllowerContext) (event : Event) (r : Result MembershipAllower)
    → (judge verify_json a event r).1 ≡ verdict verify_json event r
judge-verdict verify_json a event (ok m) = refl
judge-verdict verify_json a event (err e) = refl
judge-verdict verify_json a event panic = refl

-- Chains that go on alike after the same first step have the same verdict.
step {ℓ} :
    {A : Type ℓ} (verify_json : VerifyJson) (event : Event) (x : Result A)
    (f g : A → Result MembershipAllower)
    → ((y : A) → x ≡ ok y → verdict verify_json event (f y) ≡ verdict verify_json event (g y))
    → verdict verify_json event (x >>= f) ≡ verdict verify_json event (x >>= g)
step verify_json event (ok y) f g h = h y refl
step verify_json event (err e) f g h = refl
step verify_json event panic f g h = refl

-- What the checks of an event with a member content ask.
pub record AskedFor (a : AllowerContext) (q : AuthEventProvider) (rule : JoinRuleContent)
    (event : Event) (c : MemberContent) : Type 0 where
  pub target : (sk : String) → event.state_key ≡ some sk → a.provider.member sk ≡ q.member sk
  pub sender : a.provider.member event.sender ≡ q.member event.sender
  pub invite :
      (i : MemberThirdPartyInvite)
      → c.third_party_invite ≡ some i
      → a.provider.third_party_invite i.signed.token ≡ q.third_party_invite i.signed.token
  pub via : c.authorised_via ≢ "" → a.provider.member c.authorised_via ≡ q.member c.authorised_via
  pub join_needed : c.membership ≡ join → a.join_rule ≡ rule
  pub invite_needed : c.membership ≡ "invite" → a.join_rule ≡ rule
  pub knock_needed : c.membership ≡ knock → a.join_rule ≡ rule

invite_alike :
    (p q : AuthEventProvider) (token : String)
    → p.third_party_invite token ≡ q.third_party_invite token
    → new_third_party_invite_content_from_auth_events p token
      ≡ new_third_party_invite_content_from_auth_events q token
unfolding new_third_party_invite_content_from_auth_events
invite_alike p q token h = rw h refl

invites_alike :
    (p q : AuthEventProvider) (o : Option MemberThirdPartyInvite)
    → ((i : MemberThirdPartyInvite)
        → o ≡ some i
        → p.third_party_invite i.signed.token ≡ q.third_party_invite i.signed.token)
    → third_party_of p o ≡ third_party_of q o
invites_alike p q none h = refl
invites_alike p q (some i) h = invite_alike p q i.signed.token (h i refl)

target_some : (o : Option String) {sk : String} → target_of o ≡ ok sk → o ≡ some sk
target_some none h = cc
target_some (some sk) h = ap some (ok_inj h)

module _ (verify_json : VerifyJson) (a : AllowerContext) (q : AuthEventProvider)
    (rule : JoinRuleContent) (event : Event) where
  abbrev b : AllowerContext
  b = swap a q rule

  for_swap :
      (target : String) (c : MemberContent)
      → event.state_key ≡ some target
      → AskedFor a q rule event c
      → verdict verify_json event (allower_for a event target c)
        ≡ verdict verify_json event (allower_for b event target c)
  for_swap target c keyed asked =
      rw
        (
          member_alike a.provider q target (asked.target target keyed),
          member_alike a.provider q event.sender asked.sender,
          invites_alike a.provider q c.third_party_invite asked.invite,
        )
        (step verify_json event (new_member_content_from_auth_events q target) _ _ (λ old _.
          step verify_json event (new_member_content_from_auth_events q event.sender) _ _
            (λ sender _. step verify_json event (third_party_of q c.third_party_invite) _ _ (λ t _.
              membership_swap verify_json
                (record {
                  allower_context = a;
                  room_version = event.room_version;
                  third_party_invite = t;
                  target_id = target;
                  sender_id = event.sender;
                  sender_member = sender;
                  old_member = old;
                  new_member = c;
                })
                q rule
                (record {
                  via = asked.via;
                  join_needed = asked.join_needed;
                  invite_needed = asked.invite_needed;
                  knock_needed = asked.knock_needed;
                })
                event))))

  pub member_swap :
      ((target : String)
        → event.state_key ≡ some target
        → (c : MemberContent) → new_member_content_from_event event ≡ ok c
        → AskedFor a q rule event c)
      → (member_event_allowed verify_json a event).1 ≡ (member_event_allowed verify_json b event).1
  unfolding member_event_allowed new_membership_allower
  member_swap asked =
      judge-verdict verify_json a event (new_membership_allower a event)
      ∙ step verify_json event (target_of event.state_key) _ _ (λ target found.
        step verify_json event (new_member_content_from_event event) _ _ (λ c read.
          let keyed = target_some event.state_key found in
          for_swap target c keyed (asked target keyed c read)))
      ∙ sym (judge-verdict verify_json b event (new_membership_allower b event))
