-- ===== src/Auth/Needed/Loaded.antt =====
-- `allowed` of eventauth.go on the contexts that are loaded from two providers which agree on the state
-- that an event needs.
use gomatrixserverlib.Prelude.{
  some_inj, ◌≡◌, refl, String, true, Bool-cases, inl, inr, ◌==◌, Option, none, some, List, [], ◌∷◌,
  sym, ◌∙◌, ap, subst,
}
use gomatrixserverlib.Result.{ok, Check}
use gomatrixserverlib.Auth.Needed.{
  StateNeeded, nothing_needed, accumulate_state_needed, accumulate_member, needed_content,
  with_join_rules, with_invite,
}
use gomatrixserverlib.Event.{
  Event, m_room_create, m_room_aliases, m_room_member, m_room_power_levels, m_room_redaction,
}
use gomatrixserverlib.Auth.Events.{
  default_event_allowed, power_levels_event_allowed, redact_event_allowed, alias_event_allowed,
}
use gomatrixserverlib.Content.JoinRules.{JoinRuleContent, new_join_rule_content_from_auth_events}
use gomatrixserverlib.Content.Member.{
  zero_membership, decode_membership, MemberContent, MembershipContent,
}
use gomatrixserverlib.Json.{unmarshal, decode_pointer}
use gomatrixserverlib.Content.Create.{new_create_content_from_auth_events}
use gomatrixserverlib.Content.PowerLevels.{new_power_level_content_from_auth_events}
use gomatrixserverlib.Content.Member.Membership.{Agrees, content-Agrees}
use gomatrixserverlib.Auth.Provider.{AuthEventProvider}
use gomatrixserverlib.Auth.Membership.Checks.{VerifyJson}
use gomatrixserverlib.Auth.Allowed.{allowed, member_event_allowed}
use gomatrixserverlib.Auth.Needed.Context.{loaded}
use gomatrixserverlib.Auth.Needed.Covered.{Covered, join_rules-Covered, invite-Covered}
use gomatrixserverlib.Auth.Needed.Swap.{swap, default_swap, redact_swap, power_levels_swap}
use gomatrixserverlib.Auth.Needed.SwapMember.{AskedFor, member_swap}

-- The state needed of an event, and whether it can be told.
abbrev pub needed_of : Event → StateNeeded × Check
needed_of event =
    accumulate_state_needed nothing_needed event.event_type event.sender event.state_key
      (needed_content event)

module _ (p q : AuthEventProvider) where
  create_same :
      p.create ≡ q.create
      → (new_create_content_from_auth_events p).0 ≡ (new_create_content_from_auth_events q).0
  unfolding new_create_content_from_auth_events
  create_same h = rw h refl

  rule_same : p.join_rules ≡ q.join_rules → (loaded p).join_rule ≡ (loaded q).join_rule
  unfolding new_join_rule_content_from_auth_events
  rule_same h = rw h refl

  levels_same :
      (creator : String)
      → p.power_levels ≡ q.power_levels
      → (new_power_level_content_from_auth_events p creator).0
        ≡ (new_power_level_content_from_auth_events q creator).0
  unfolding new_power_level_content_from_auth_events
  levels_same creator h = rw h refl

  -- With the same create and power levels events, the contexts differ in provider and join rule.
  loaded_swap :
      p.create ≡ q.create
      → p.power_levels ≡ q.power_levels
      → swap (loaded p) q (loaded q).join_rule ≡ loaded q
  loaded_swap c l =
      let creation = create_same c in
      let levels : (loaded p).power_levels ≡ (loaded q).power_levels =
        levels_same (loaded p).create.creator l
        ∙ ap (λ x. (new_power_level_content_from_auth_events q x.creator).0) creation in
      λ i. record {
        provider = q;
        create = creation i;
        power_levels = levels i;
        join_rule = (loaded q).join_rule;
      }

  alias_same :
      (event : Event)
      → p.create ≡ q.create
      → alias_event_allowed (loaded p) event ≡ alias_event_allowed (loaded q) event
  unfolding alias_event_allowed
  alias_same event h = rw (create_same h) refl

  -- What the state needed of a membership event covers is all that its checks ask.
  module _ (event : Event) (n : MembershipContent) where
    abbrev keyed : List String → StateNeeded
    keyed users = record nothing_needed { create = true; power_levels = true; member = users }

    abbrev needed : List String → StateNeeded × Check
    needed users =
        with_invite (with_join_rules (keyed users) n.membership) n.third_party_invite
          n.authorized_via

    contexts_same :
        (users : List String)
        → (needed users).1 ≡ ok tt
        → Covered p q (needed users).0
        → swap (loaded p) q (loaded q).join_rule ≡ loaded q
    contexts_same users fine covered =
        let (h, via, invites) =
          invite-Covered p q (with_join_rules (keyed users) n.membership) n.third_party_invite
            n.authorized_via fine covered in
        let (base, rules) = join_rules-Covered p q (keyed users) n.membership h in
        loaded_swap (base.create refl) (base.power_levels refl)

    asked_for :
        (target : String)
        → (needed (event.sender ∷ target ∷ [])).1 ≡ ok tt
        → Covered p q (needed (event.sender ∷ target ∷ [])).0
        → event.state_key ≡ some target
        → (c : MemberContent) → Agrees c n
        → AskedFor (loaded p) q (loaded q).join_rule event c
    asked_for target fine covered key c agrees =
        let users = event.sender ∷ target ∷ [] in
        let (h, via, invites) =
          invite-Covered p q (with_join_rules (keyed users) n.membership) n.third_party_invite
            n.authorized_via fine covered in
        let (base, rules) = join_rules-Covered p q (keyed users) n.membership h in
        let same = sym agrees.membership in
        record {
          target =
              λ sk e. subst (λ t. p.member t ≡ q.member t) (some_inj (sym key ∙ e)) base.member.1.0;
          sender = base.member.0;
          invite = λ i e. invites i (sym agrees.third_party_invite ∙ e);
          via = λ named.
              subst (λ v. p.member v ≡ q.member v) (sym agrees.authorised_via)
                (via (λ e. named (agrees.authorised_via ∙ e)));
          join_needed = λ e. rule_same (rules (inl (same ∙ e)));
          invite_needed = λ e. rule_same (rules (inr (inr (same ∙ e))));
          knock_needed = λ e. rule_same (rules (inr (inl (same ∙ e))));
        }

  module _ (verify_json : VerifyJson) (event : Event) where
    member_same :
        (o : Option MembershipContent) (state_key : Option String)
        → (unmarshal (decode_pointer zero_membership decode_membership) event.content none).0 ≡ o
        → event.state_key ≡ state_key
        → (accumulate_member nothing_needed event.sender state_key o).1 ≡ ok tt
        → Covered p q (accumulate_member nothing_needed event.sender state_key o).0
        → (member_event_allowed verify_json (loaded p) event).1
          ≡ (member_event_allowed verify_json (loaded q) event).1
    member_same none state_key content key fine covered = cc
    member_same (some n) none content key fine covered =
        member_swap verify_json (loaded p) q (loaded q).join_rule event
          (λ target e c read. let no = sym key ∙ e in cc)
        ∙ ap (λ a. (member_event_allowed verify_json a event).1)
            (contexts_same event n [] fine covered)
    member_same (some n) (some target) content key fine covered =
        member_swap verify_json (loaded p) q (loaded q).join_rule event (λ sk e c read.
          asked_for event n target fine covered key c (content-Agrees event n c content read))
        ∙ ap (λ a. (member_event_allowed verify_json a event).1)
            (contexts_same event n (event.sender ∷ target ∷ []) fine covered)

    -- The checks that ask for the sender, and for the create and power levels events.
    module _ (c : p.create ≡ q.create) (l : p.power_levels ≡ q.power_levels)
        (h : p.member event.sender ≡ q.member event.sender) where
      abbrev rule : JoinRuleContent
      rule = (loaded q).join_rule

      levels_event_same :
          power_levels_event_allowed (loaded p) event ≡ power_levels_event_allowed (loaded q) event
      levels_event_same =
          power_levels_swap (loaded p) q rule event h
          ∙ ap (λ a. power_levels_event_allowed a event) (loaded_swap c l)

      redact_same : redact_event_allowed (loaded p) event ≡ redact_event_allowed (loaded q) event
      redact_same =
          redact_swap (loaded p) q rule event h
          ∙ ap (λ a. redact_event_allowed a event) (loaded_swap c l)

      default_same : default_event_allowed (loaded p) event ≡ default_event_allowed (loaded q) event
      default_same =
          default_swap (loaded p) q rule event h
          ∙ ap (λ a. default_event_allowed a event) (loaded_swap c l)

    -- Providers that agree on the state needed give the same verdict on loaded contexts.
    pub loaded_same :
        (needed_of event).1 ≡ ok tt
        → Covered p q (needed_of event).0
        → (allowed verify_json (loaded p) event).1 ≡ (allowed verify_json (loaded q) event).1
    unfolding allowed accumulate_state_needed needed_content
    loaded_same fine covered = elim (Bool-cases (event.event_type == m_room_create)) [
      | inl c ↦ rw c refl
      | inr c ↦ elim (Bool-cases (event.event_type == m_room_aliases)) [
        | inl l ↦
            let state = rw (c, l) at covered in rw (c, l) (alias_same event (state.create refl))
        | inr l ↦ elim (Bool-cases (event.event_type == m_room_member)) [
          | inl m ↦
              rw (c, l, m)
                (member_same
                  (unmarshal (decode_pointer zero_membership decode_membership) event.content
                    none).0
                  event.state_key refl refl (rw (c, l, m) at fine) (rw (c, l, m) at covered))
          | inr m ↦
              let state = rw (c, l, m) at covered in
              let created = state.create refl in
              let levels = state.power_levels refl in
              elim (Bool-cases (event.event_type == m_room_power_levels)) [
                | inl p ↦ rw (c, l, m, p) (levels_event_same created levels state.member.0)
                | inr p ↦ elim (Bool-cases (event.event_type == m_room_redaction)) [
                  | inl r ↦ rw (c, l, m, p, r) (redact_same created levels state.member.0)
                  | inr r ↦ rw (c, l, m, p, r) (default_same created levels state.member.0)
                ]
              ]
        ]
      ]
    ]
