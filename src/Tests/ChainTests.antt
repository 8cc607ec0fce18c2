-- ===== src/Tests/ChainTests.antt =====
-- Tests of the checks by auth events and by the state at an event.
use gomatrixserverlib.Prelude.{
  ◌≡◌, refl, true, false, none, some, [], ◌∷◌, lookup, All, subst, ◌↔◌, List, String,
}
use gomatrixserverlib.Result.{err, bad_event, Result, ok, ok_inj}
use gomatrixserverlib.Event.{Event, References, auth_event_ids}
use gomatrixserverlib.Auth.Membership.Checks.{VerifyJson}
use gomatrixserverlib.AuthChain.{
  EventMap, AuthChainProvider, check_allowed_by_auth_events, concluded, StateProvider,
  verify_auth_rules_at_state,
}
use gomatrixserverlib.AuthChain.Retry.{
  answers, check_allowed_by_auth_events-Ends, check_allowed_by_auth_events-never_ends,
}
use gomatrixserverlib.AuthChain.Collected.{
  known_events, verdict_by_known, check_allowed_by_auth_events-known,
}
use gomatrixserverlib.AuthChain.AtState.{IsAccepted, Passes, verify_auth_rules_at_state_iff}
use gomatrixserverlib.ResolutionV1.Collected.{IsState}
use gomatrixserverlib.Tests.Samples.{alice, in_version}

abbrev no_signatures : VerifyJson
no_signatures domain key_id public_key signed = err bad_event

abbrev topic_8 : Event
topic_8 = record (in_version "8" "m.room.topic" alice (some "") none) {
  event_id = "$t";
  references = References.v2 [] ("$c" ∷ []);
}

abbrev create_8 : Event
create_8 = record (in_version "8" "m.room.create" alice (some "") none) {
  event_id = "$c";
  references = References.v2 [] [];
}

abbrev no_answer : AuthChainProvider
no_answer version ids = ok []

no_answers : All (λ id. answers id (no_answer "8" (id ∷ [])) ≡ true) (auth_event_ids topic_8)
unfolding auth_event_ids
no_answers = (refl, tt)

check_allowed_by_auth_events-Ends_example :
    (result : Result EventMap) × (check_allowed_by_auth_events no_signatures 2 topic_8 []
        (some no_answer)
      ≡ some result)
check_allowed_by_auth_events-Ends_example =
    check_allowed_by_auth_events-Ends no_signatures topic_8 [] no_answer 0 no_answers

-- A provider that returns an event that was not asked for.
abbrev other_answer : AuthChainProvider
other_answer version ids = ok (topic_8 ∷ [])

one_auth_event : auth_event_ids topic_8 ≡ "$c" ∷ []
unfolding auth_event_ids
one_auth_event = refl

abbrev no_entries : EventMap
no_entries = []

not_in_map : lookup "$c" no_entries ≡ none
unfolding lookup
not_in_map = refl

check_allowed_by_auth_events-never_ends_example :
    check_allowed_by_auth_events no_signatures 100 topic_8 [] (some other_answer) ≡ none
check_allowed_by_auth_events-never_ends_example =
    check_allowed_by_auth_events-never_ends no_signatures topic_8 [] other_answer 100 "$c" []
      topic_8 [] one_auth_event not_in_map refl refl

abbrev state_8 : EventMap
state_8 = ("$c", some create_8) ∷ []

known_states : All IsState (known_events state_8 (auth_event_ids topic_8))
unfolding lookup auth_event_ids
known_states = (("", refl), tt)

check_allowed_by_auth_events-known_example :
    check_allowed_by_auth_events no_signatures 1 topic_8 state_8 none
    ≡ concluded state_8 (verdict_by_known no_signatures topic_8 state_8)
check_allowed_by_auth_events-known_example =
    check_allowed_by_auth_events-known no_signatures topic_8 0 state_8 known_states

abbrev states : StateProvider
states = record {
  state_ids_before_event = λ event. ok ("$d" ∷ []);
  state_before_event = λ version event ids. ok state_8;
}

fetched_states :
    (state_ids : List String) (room_state : EventMap)
    → states.state_ids_before_event topic_8 ≡ ok state_ids
    → states.state_before_event "8" topic_8 state_ids ≡ ok room_state
    → All IsState (known_events room_state (auth_event_ids topic_8))
fetched_states state_ids room_state ids state =
    subst (λ s. All IsState (known_events s (auth_event_ids topic_8))) (ok_inj state) known_states

verify_auth_rules_at_state_iff_example :
    IsAccepted (verify_auth_rules_at_state no_signatures states false false topic_8 true) ↔ (
      (state_ids : List String) × (states.state_ids_before_event topic_8 ≡ ok state_ids)
      × Passes no_signatures states false false topic_8 true state_ids)
verify_auth_rules_at_state_iff_example =
    verify_auth_rules_at_state_iff no_signatures states false false topic_8 fetched_states true
