-- ===== src/ResolutionV2/SenderLevel.antt =====
-- stateresolutionv2.go: the sender's level at an event, by its auth events, and the cache of the
-- contents that were read for it.
pub mod Cache
use gomatrixserverlib.Prelude.Int.{to_int64, ℤ, pos}
use gomatrixserverlib.Prelude.{
  Bool, true, false, Option, none, some, List, [], ◌∷◌, String, ◌==◌, if◌then◌else◌, Assoc, lookup,
  insert,
}
use gomatrixserverlib.Result.{Result, ok, err, panic, Check}
use gomatrixserverlib.Event.{Event, m_room_power_levels, auth_event_ids}
use gomatrixserverlib.Content.PowerLevels.{
  PowerLevelContent, user_level, new_power_level_content_from_event,
}
use gomatrixserverlib.ResolutionV2.Order.{ConflictedPowerLevel}

-- A map of events by ID, `eventMapFromEvents`: of two events with one ID, the first is kept.
abbrev add_missing : Event → Assoc Event → Assoc Event
add_missing e m = elim (lookup e.event_id m) [ none ↦ insert e.event_id e m | some _ ↦ m ]

event_map_with : Assoc Event → List Event → Assoc Event
unfolding lookup insert
event_map_with m [] = m
event_map_with m (e ∷ es) = event_map_with (add_missing e m) es

unfoldable pub event_map_from_events : List Event → Assoc Event
unfolding event_map_with
event_map_from_events events = event_map_with [] events

-- The contents of power levels events that were read before, by event ID.
abbrev pub Contents : Type 0
Contents = Assoc PowerLevelContent

-- The content that was just read; one that could not be read is not cached.
abbrev pub after_parsing :
    Contents → String → String → PowerLevelContent × Check → Contents × Result ℤ
after_parsing contents auth_id user (parsed, ok _) =
    (insert auth_id parsed contents, ok (user_level parsed user))
after_parsing contents auth_id user (parsed, err _) = (contents, ok (pos 0))
after_parsing contents auth_id user (parsed, panic) = (contents, panic)

abbrev pub with_content :
    Contents → String → String → Event → Option PowerLevelContent → Contents × Result ℤ
with_content contents auth_id user auth_event (some content) =
    (contents, ok (user_level content user))
with_content contents auth_id user auth_event none =
    after_parsing contents auth_id user (new_power_level_content_from_event auth_event)

-- Whether an event is the power levels of the room; the state key of a power levels event is
-- dereferenced.
abbrev pub is_power_levels : Event → Result Bool
is_power_levels e =
    if e.event_type == m_room_power_levels
    then elim e.state_key [ none ↦ panic | some sk ↦ ok (sk == "") ]
    else ok false

abbrev pub visit_event :
    Contents → String → String → Event → Contents × Result ℤ → Result Bool → Contents × Result ℤ
visit_event contents auth_id user e rest (ok true) =
    with_content contents auth_id user e (lookup auth_id contents)
visit_event contents auth_id user e rest (ok false) = rest
visit_event contents auth_id user e rest (err error) = (contents, err error)
visit_event contents auth_id user e rest panic = (contents, panic)

abbrev pub visit :
    Contents → String → String → Option Event → Contents × Result ℤ → Contents × Result ℤ
visit contents auth_id user none rest = rest
visit contents auth_id user (some e) rest =
    visit_event contents auth_id user e rest (is_power_levels e)

-- The loop over the auth event IDs.
unfoldable pub level_by_ids : Assoc Event → String → List String → Contents → Contents × Result ℤ
level_by_ids auth_event_map user [] contents = (contents, ok (pos 0))
level_by_ids auth_event_map user (auth_id ∷ ids) contents =
    visit contents auth_id user (lookup auth_id auth_event_map)
      (level_by_ids auth_event_map user ids contents)

unfoldable pub get_power_level_from_auth_events :
    Assoc Event → Contents → Event → Contents × Result ℤ
unfolding level_by_ids
get_power_level_from_auth_events auth_event_map contents event =
    level_by_ids auth_event_map event.sender (auth_event_ids event) contents

abbrev pub wrap : Event → ℤ → ConflictedPowerLevel
wrap event level = record {
  power_level = level;
  origin_server_ts = to_int64 event.origin_server_ts;
  event_id = event.event_id;
  event = event;
}

abbrev pub cons_result {ℓ} : {A : Type ℓ} → Result A → Result (List A) → Result (List A)
cons_result (ok x) (ok xs) = ok (x ∷ xs)
cons_result (ok x) (err e) = err e
cons_result (ok x) panic = panic
cons_result (err e) _ = err e
cons_result panic _ = panic

abbrev pub wrapped : Event → Result ℤ → Result ConflictedPowerLevel
wrapped event (ok level) = ok (wrap event level)
wrapped event (err e) = err e
wrapped event panic = panic

-- The events are wrapped one after the other, with the cache that the ones before left.
unfoldable pub wrap_power_level_events_for_sort :
    Assoc Event → Contents → List Event → Contents × Result (List ConflictedPowerLevel)
wrap_power_level_events_for_sort auth_event_map contents [] = (contents, ok [])
wrap_power_level_events_for_sort auth_event_map contents (event ∷ events) =
    let (after, level) = get_power_level_from_auth_events auth_event_map contents event in
    let (last, rest) = wrap_power_level_events_for_sort auth_event_map after events in
    (last, cons_result (wrapped event level) rest)
