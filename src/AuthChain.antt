-- ===== src/AuthChain.antt =====
-- authchain.go, authstate.go and checkAllowedByAuthEvents of federationtypes.go: an event against the
-- events that its auth event IDs stand for. A provider of missing events is a function, so it answers
-- the same question alike each time; one that is nil is none.
pub mod Retry
pub mod Collected
pub mod AtState
use gomatrixserverlib.Prelude.{
  ℕ, zero, suc, Bool, true, false, Option, none, some, List, [], ◌∷◌, String, ◌==◌, if◌then◌else◌,
  Assoc, lookup, insert, any,
}
use gomatrixserverlib.Result.{Result, ok, err, panic, Check, context_cancelled}
use gomatrixserverlib.Event.{Event, auth_event_ids}
use gomatrixserverlib.Auth.Provider.{AuthEvents, add_event, provider_of}
use gomatrixserverlib.Auth.Membership.Checks.{VerifyJson}
use gomatrixserverlib.Auth.Allowed.{allowed_by}

-- The map by event ID; a nil entry has nothing in it.
abbrev pub EventMap : Type 0
EventMap = Assoc (Option Event)

abbrev pub AuthChainProvider : Type 0
AuthChainProvider = String → List String → Result (List Event)

-- A loop that has ended, or one that still runs when its fuel is used up.
abbrev pub Run : Type 0 → Type 0
Run A = Option (Result A)

module _ {A B : Type 0} where
  abbrev pub and_then : Run A → (A → Run B) → Run B
  and_then none next = none
  and_then (some (ok a)) next = next a
  and_then (some (err e)) next = some (err e)
  and_then (some panic) next = some panic

-- The provider of auth events that is filled, and the map.
abbrev pub Fetched : Type 0
Fetched = AuthEvents × EventMap

-- An event that the provider returned: one that cannot be an auth event is noted as nil.
abbrev pub noted : Event → EventMap → AuthEvents × Result (Unit {0}) → Fetched
noted e by_id (after, ok _) = (after, insert e.event_id (some e) by_id)
noted e by_id (after, err _) = (after, insert e.event_id none by_id)
noted e by_id (after, panic) = (after, insert e.event_id none by_id)

unfoldable pub store_events : List Event → Fetched → Fetched
store_events [] s = s
store_events (e ∷ events) s = store_events events (noted e s.1 (add_event s.0 e))

-- What the provider's answer leaves.
abbrev pub after_answer : String → Fetched → Result (List Event) → Result Fetched
after_answer id s (ok []) = ok (s.0, insert id none s.1)
after_answer id s (ok (e ∷ events)) = ok (store_events (e ∷ events) s)
after_answer id s (err _) = ok (s.0, insert id none s.1)
after_answer id s panic = panic

abbrev pub added : EventMap → AuthEvents × Result (Unit {0}) → Result Fetched
added by_id (after, ok _) = ok (after, by_id)
added by_id (after, err e) = err e
added by_id (after, panic) = panic

-- An ID that has an entry.
abbrev pub with_entry : Fetched → Option Event → Result Fetched
with_entry s (some event) = added s.1 (add_event s.0 event)
with_entry s none = ok s

-- An ID that has none: the loop goes on behind the label, with the provider's answer.
abbrev pub without_entry :
    (Fetched → Run Fetched) → String → String → Fetched → Option AuthChainProvider → Run Fetched
without_entry again version id s none = some (ok s)
without_entry again version id s (some missing_auth) =
    and_then (some (after_answer id s (missing_auth version (id ∷ [])))) again

abbrev pub retry_event :
    (Fetched → Run Fetched)
    → Option AuthChainProvider
    → String
    → String
    → Fetched
    → Option (Option Event)
    → Run Fetched
retry_event again missing_auth version id s (some event) = some (with_entry s event)
retry_event again missing_auth version id s none = without_entry again version id s missing_auth

-- The rounds between the label `retryEvent` and the `goto`.
unfoldable pub fetch_event : ℕ → Option AuthChainProvider → String → String → Fetched → Run Fetched
fetch_event zero missing_auth version id s = none
fetch_event (suc fuel) missing_auth version id s =
    retry_event (fetch_event fuel missing_auth version id) missing_auth version id s (lookup id s.1)

unfoldable pub fetch_events :
    ℕ → Option AuthChainProvider → String → List String → Fetched → Run Fetched
fetch_events fuel missing_auth version [] s = some (ok s)
fetch_events fuel missing_auth version (id ∷ ids) s =
    and_then (fetch_event fuel missing_auth version id s)
      (fetch_events fuel missing_auth version ids)

abbrev pub no_auth_events : AuthEvents
no_auth_events = record { events = [] }

-- The verdict, with the map that is left, which the caller shares.
abbrev pub concluded : EventMap → Check → Run EventMap
concluded by_id (ok _) = some (ok by_id)
concluded by_id (err e) = some (err e)
concluded by_id panic = some panic

module _ (verify_json : VerifyJson) (fuel : ℕ) where
  unfoldable pub check_allowed_by_auth_events :
      Event → EventMap → Option AuthChainProvider → Run EventMap
  unfolding fetch_event fetch_events store_events
  check_allowed_by_auth_events event by_id missing_auth =
      and_then
        (fetch_events fuel missing_auth event.room_version (auth_event_ids event)
          (no_auth_events, by_id))
        λ s. concluded s.1 (allowed_by verify_json (provider_of s.0) event)

-- The stack of events to verify, its top first: events are pushed in their order.
unfoldable pub push_all : List Event → List Event → List Event
push_all [] stack = stack
push_all (e ∷ events) stack = push_all events (e ∷ stack)

unfoldable pub add_to_table : List Event → EventMap → EventMap
add_to_table [] by_id = by_id
add_to_table (e ∷ events) by_id = add_to_table events (insert e.event_id (some e) by_id)

abbrev has_event : Option (Option Event) → Bool
has_event none = false
has_event (some none) = false
has_event (some (some e)) = true

-- The IDs that no event is known for.
unfoldable pub needed_events : List String → EventMap → List String
needed_events [] by_id = []
needed_events (id ∷ ids) by_id =
    let rest = needed_events ids by_id in if has_event (lookup id by_id) then rest else id ∷ rest

abbrev provided : EventMap → List Event → Result (List Event) → Result (EventMap × List Event)
provided by_id stack (ok events) = ok (add_to_table events by_id, push_all events stack)
provided by_id stack (err e) = err e
provided by_id stack panic = panic

abbrev pub obtain :
    AuthChainProvider
    → String
    → EventMap
    → List Event
    → List String
    → Result (EventMap × List Event)
obtain provide_events version by_id stack [] = ok (by_id, stack)
obtain provide_events version by_id stack (id ∷ ids) =
    provided by_id stack (provide_events version (id ∷ ids))

abbrev pub is_verified : String → List String → Bool
is_verified id verified = any (λ v. v == id) verified

-- The table, the IDs of the verified events and the stack.
abbrev pub Verifying : Type 0
Verifying = EventMap × List String × List Event

module _ (verify_json : VerifyJson) (fuel : ℕ) (provide_events : AuthChainProvider)
    (version : String) where
  abbrev pub verify_one : Event → EventMap → List String → List Event → Bool → Run Verifying
  verify_one curr by_id verified stack true = some (ok (by_id, verified, stack))
  verify_one curr by_id verified stack false =
      and_then
        (some
          (obtain provide_events version by_id stack (needed_events (auth_event_ids curr) by_id)))
        λ (table, pushed).
          and_then (check_allowed_by_auth_events verify_json fuel curr table (some provide_events))
            λ left. some (ok (left, curr.event_id ∷ verified, pushed))

  -- One round of the loop, given the rounds after it.
  abbrev pub verify_next : (Verifying → Run (Unit {0})) → Verifying → Run (Unit {0})
  verify_next next (by_id, verified, []) = some (ok tt)
  verify_next next (by_id, verified, curr ∷ stack) =
      and_then (verify_one curr by_id verified stack (is_verified curr.event_id verified)) next

  unfoldable pub verify_stack : ℕ → Verifying → Run (Unit {0})
  unfolding check_allowed_by_auth_events needed_events push_all add_to_table
  verify_stack zero v = none
  verify_stack (suc rounds) v = verify_next (verify_stack rounds) v

unfoldable pub verify_event_auth_chain : VerifyJson → ℕ → Event → AuthChainProvider → Run (Unit {0})
unfolding verify_stack
verify_event_auth_chain verify_json fuel event provide_events =
    verify_stack verify_json fuel provide_events event.room_version fuel
      (insert event.event_id (some event) [], [], event ∷ [])

-- `StateProvider`, by the answers of its methods for one event.
pub record StateProvider : Type 0 where
  pub state_ids_before_event : Event → Result (List String)
  pub state_before_event : String → Event → List String → Result EventMap

abbrev pub all_among : List String → List String → Bool
all_among state_ids [] = true
all_among state_ids (id ∷ ids) =
    let rest = all_among state_ids ids in if any (λ s. s == id) state_ids then rest else false

-- The slow path; the context may be cancelled before the state is fetched, and after that.
abbrev state_fetched : Bool → Bool → Result EventMap → Result EventMap
state_fetched true cancelled_after state = err context_cancelled
state_fetched false cancelled_after (err e) = err e
state_fetched false cancelled_after panic = panic
state_fetched false true (ok state) = err context_cancelled
state_fetched false false (ok state) = ok state

module _ (verify_json : VerifyJson) (sp : StateProvider)
    (cancelled_before cancelled_after : Bool) where
  abbrev pub verify_by_state : Event → List String → Bool → Run EventMap
  verify_by_state event state_ids true = some (ok [])
  verify_by_state event state_ids false =
      and_then
        (some (
          state_fetched cancelled_before cancelled_after
            (sp.state_before_event event.room_version event state_ids)))
        λ room_state. check_allowed_by_auth_events verify_json 1 event room_state none

  -- VerifyAuthRulesAtState: with no provider, one round for each ID is enough.
  unfoldable pub verify_auth_rules_at_state : Event → Bool → Run EventMap
  unfolding check_allowed_by_auth_events
  verify_auth_rules_at_state event allow_validation =
      and_then (some (sp.state_ids_before_event event)) λ state_ids.
        verify_by_state event state_ids
          (if allow_validation then all_among state_ids (auth_event_ids event) else false)
