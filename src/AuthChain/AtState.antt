-- ===== src/AuthChain/AtState.antt =====
-- VerifyAuthRulesAtState of authstate.go: exactly when it succeeds.
use mathlib.Core.List.{Memᴰ}
use mathlib.Core.List.Memᴰ
use gomatrixserverlib.Prelude.{
  ◌≡◌, refl, sym, subst, ◌↔◌, ◌⊎◌, inl, inr, Bool, true, false, Bool-cases, none, some, List, [],
  ◌∷◌, String, ◌==◌, eq_iff, All, any, if◌then◌else◌, arith,
}
use gomatrixserverlib.Result.{Result, ok, err, panic, Check, ok_inj}
use gomatrixserverlib.Event.{Event, auth_event_ids}
use gomatrixserverlib.Auth.Membership.Checks.{VerifyJson}
use gomatrixserverlib.AuthChain.{
  EventMap, Run, and_then, concluded, StateProvider, all_among, state_fetched, verify_by_state,
  check_allowed_by_auth_events, verify_auth_rules_at_state,
}
use gomatrixserverlib.AuthChain.Collected.{
  known_events, verdict_by_known, check_allowed_by_auth_events-known,
}
use gomatrixserverlib.ResolutionV1.Collected.{IsState}

-- The run ended without an error.
abbrev pub IsAccepted : Run EventMap → Type 0
IsAccepted r = (left : EventMap) × (r ≡ some (ok left))

any-Mem : (id : String) (ids : List String) → (any (λ s. s == id) ids ≡ true) ↔ Memᴰ id ids
any-Mem id [] = (λ h. cc h, λ m. absurd (Memᴰ.not-nil m))
any-Mem id (s ∷ ids) = (
  λ h. elim (Bool-cases (s == id)) [
    | inl b ↦ Memᴰ.head (sym ((eq_iff s id).0 b))
    | inr b ↦ Memᴰ.tail ((any-Mem id ids).0 (rw b at h))
  ],
  λ m. elim (Memᴰ.cases_cons m) [
    | inl e ↦ ground (arith, (eq_iff s id).1 (sym e))
    | inr k ↦ ground (arith, (any-Mem id ids).1 k)
  ],
)

all_among_iff :
    (state_ids ids : List String)
    → (all_among state_ids ids ≡ true) ↔ All (λ id. Memᴰ id state_ids) ids
all_among_iff state_ids [] = (λ h. tt, λ h. refl)
all_among_iff state_ids (id ∷ ids) =
    let (there, back) = any-Mem id state_ids in
    let (rest, all) = all_among_iff state_ids ids in
    (
      λ h. (there (ground (arith, h)), rest (ground (arith, h))),
      λ (m, ms). ground (arith, back m, all ms),
    )

concluded_iff : (by_id : EventMap) (v : Check) → IsAccepted (concluded by_id v) ↔ (v ≡ ok tt)
concluded_iff by_id (ok u) = (λ h. refl, λ h. (by_id, refl))
concluded_iff by_id (err e) = (λ (l, h). cc h, λ h. cc h)
concluded_iff by_id panic = (λ (l, h). cc h, λ h. cc h)

-- The slow path succeeds where the context is not cancelled, the state is fetched, and the check of it
-- succeeds.
slow_iff :
    (cancelled_before cancelled_after : Bool) (state : Result EventMap)
    (check : EventMap → Run EventMap)
    → IsAccepted (and_then (some (state_fetched cancelled_before cancelled_after state)) check) ↔ (
        (cancelled_before ≡ false)
        × (cancelled_after ≡ false)
        × ((room_state : EventMap) × (state ≡ ok room_state) × IsAccepted (check room_state)))
slow_iff true after state check = (λ (l, h). cc h, λ (b, a, rest). cc b)
slow_iff false after (err e) check = (λ (l, h). cc h, λ (b, a, (st, f, _)). cc f)
slow_iff false after panic check = (λ (l, h). cc h, λ (b, a, (st, f, _)). cc f)
slow_iff false true (ok st) check = (λ (l, h). cc h, λ (b, a, rest). cc a)
slow_iff false false (ok st) check = (
  λ h. (refl, refl, (st, refl, h)),
  λ (b, a, (other, f, h)). subst (λ x. IsAccepted (check x)) (sym (ok_inj f)) h,
)

module _ (verify_json : VerifyJson) (sp : StateProvider) (cancelled_before cancelled_after : Bool)
    (event : Event) where
  -- The state before the event allows it, by the auth events that it has.
  abbrev pub AllowedByState : List String → Type 0
  AllowedByState state_ids =
      (cancelled_before ≡ false)
      × (cancelled_after ≡ false)
      × ((room_state : EventMap) × (sp.state_before_event event.room_version event state_ids
            ≡ ok room_state)
          × (verdict_by_known verify_json event room_state ≡ ok tt))

  -- Why the event may pass: all its auth events are in the state, which is enough where the caller says
  -- so, or the state allows it.
  pub data Passes (allow_validation : Bool) (state_ids : List String) : Type 0 where
    by_ids :
        allow_validation ≡ true
        → All (λ id. Memᴰ id state_ids) (auth_event_ids event)
        → Passes allow_validation state_ids
    by_state : AllowedByState state_ids → Passes allow_validation state_ids

  module _
      (states : (state_ids : List String) (room_state : EventMap)
        → sp.state_ids_before_event event ≡ ok state_ids
        → sp.state_before_event event.room_version event state_ids ≡ ok room_state
        → All IsState (known_events room_state (auth_event_ids event))) where
    module _ (state_ids : List String)
        (fetched : sp.state_ids_before_event event ≡ ok state_ids) where
      checked :
          (room_state : EventMap)
          → sp.state_before_event event.room_version event state_ids ≡ ok room_state
          → IsAccepted (check_allowed_by_auth_events verify_json 1 event room_state none)
            ↔ (verdict_by_known verify_json event room_state ≡ ok tt)
      checked room_state h =
          subst (λ r. IsAccepted r ↔ (verdict_by_known verify_json event room_state ≡ ok tt))
            (sym (
              check_allowed_by_auth_events-known verify_json event 0 room_state
                (states state_ids room_state fetched h)))
            (concluded_iff room_state (verdict_by_known verify_json event room_state))

      by_state_iff :
          IsAccepted
            (verify_by_state verify_json sp cancelled_before cancelled_after event state_ids false)
          ↔ AllowedByState state_ids
      by_state_iff =
          let state = sp.state_before_event event.room_version event state_ids in
          let (found, back) =
            slow_iff cancelled_before cancelled_after state
              (λ room_state. check_allowed_by_auth_events verify_json 1 event room_state none) in
          (
            λ h. let (b, a, (st, f, passed)) = found h in (b, a, (st, f, (checked st f).0 passed)),
            λ (b, a, (st, f, verdict)). back (b, a, (st, f, (checked st f).1 verdict)),
          )

      test_iff :
          (enough : Bool)
          → IsAccepted (
              verify_by_state verify_json sp cancelled_before cancelled_after event state_ids
                enough)
            ↔ ((enough ≡ true) ⊎ AllowedByState state_ids)
      test_iff true = (λ h. inl refl, λ h. ([], refl))
      test_iff false =
          (λ h. inr (by_state_iff.0 h), λ h. elim h [ inl e ↦ cc e | inr s ↦ by_state_iff.1 s ])

    enough_iff :
        (allow_validation : Bool) (state_ids : List String)
        → ((if allow_validation then all_among state_ids (auth_event_ids event) else false) ≡ true)
          ↔ ((allow_validation ≡ true) × All (λ id. Memᴰ id state_ids) (auth_event_ids event))
    enough_iff true state_ids =
        let (there, back) = all_among_iff state_ids (auth_event_ids event) in
        (λ h. (refl, there h), λ (_, h). back h)
    enough_iff false state_ids = (λ h. cc h, λ (h, _). cc h)

    run_iff :
        (allow_validation : Bool) (ids : Result (List String))
        → sp.state_ids_before_event event ≡ ids
        → IsAccepted (
            and_then (some ids) λ state_ids.
              verify_by_state verify_json sp cancelled_before cancelled_after event state_ids
                (if allow_validation then all_among state_ids (auth_event_ids event) else false))
          ↔ ((state_ids : List String) × (ids ≡ ok state_ids) × Passes allow_validation state_ids)
    run_iff allow_validation (err e) fetched = (λ (l, h). cc h, λ (i, h, _). cc h)
    run_iff allow_validation panic fetched = (λ (l, h). cc h, λ (i, h, _). cc h)
    run_iff allow_validation (ok state_ids) fetched =
        let (why, back) =
          test_iff state_ids fetched
            (if allow_validation then all_among state_ids (auth_event_ids event) else false) in
        let (enough, is_enough) = enough_iff allow_validation state_ids in
        (
          λ h. (
            state_ids,
            refl,
            elim (why h) [ inl e ↦ let (a, ms) = enough e in by_ids a ms | inr s ↦ by_state s ],
          ),
          λ (i, h, p). elim (subst (Passes allow_validation) (sym (ok_inj h)) p) [
            | by_ids a ms ↦ back (inl (is_enough (a, ms)))
            | by_state s ↦ back (inr s)
          ],
        )

    -- Let the auth events of an event that the fetched state has be state events. VerifyAuthRulesAtState
    -- succeeds exactly if the state IDs are fetched and either the caller allows the short way and every
    -- auth event ID of the event is one of them, or the context is cancelled neither before nor after the
    -- state is fetched, it is fetched, and Allowed accepts the event by its auth events in the state.
    pub verify_auth_rules_at_state_iff :
        (allow_validation : Bool)
        → IsAccepted (
            verify_auth_rules_at_state verify_json sp cancelled_before cancelled_after event
              allow_validation)
          ↔ ((state_ids : List String) × (sp.state_ids_before_event event ≡ ok state_ids)
              × Passes allow_validation state_ids)
    unfolding verify_auth_rules_at_state
    verify_auth_rules_at_state_iff allow_validation =
        run_iff allow_validation (sp.state_ids_before_event event) refl
