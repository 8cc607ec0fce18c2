-- ===== src/ResolutionV2/Mainline.antt =====
-- stateresolutionv2.go: the mainline of power levels events and the order of the other events by it.
-- The two recursions over auth events have fuel; Go's stack is exhausted where they do not end.
pub mod Ancestors
use gomatrixserverlib.Prelude.Int.{to_int64, pos}
use gomatrixserverlib.Prelude.{
  ℕ, zero, suc, ◌+◌, ◌&&◌, Bool, Option, none, some, List, [], ◌∷◌, String, ◌==◌, if◌then◌else◌,
  Assoc, lookup, insert, map,
}
use gomatrixserverlib.Prelude.Sort.{sort_by}
use gomatrixserverlib.Result.{Result, ok, panic, ◌>>=◌}
use gomatrixserverlib.Event.{Event, m_room_power_levels, state_key_equals, auth_event_ids}
use gomatrixserverlib.ResolutionV2.Order.{ConflictedOther, other_less}

abbrev pub is_power_levels_event : Event → Bool
is_power_levels_event e = e.event_type == m_room_power_levels && state_key_equals e ""

-- The power levels event of an ID among the auth events.
abbrev pub if_power_levels : Option Event → Option Event
if_power_levels none = none
if_power_levels (some e) = if is_power_levels_event e then some e else none

abbrev pub power_levels_event : Assoc Event → String → Option Event
power_levels_event auth_event_map id = if_power_levels (lookup id auth_event_map)

-- The loop of the iterator of createPowerLevelMainline, given the iterator.
abbrev pub iterate_if :
    (Event → List Event → Result (List Event)) → List Event → Option Event → Result (List Event)
iterate_if iterate mainline none = ok mainline
iterate_if iterate mainline (some e) = iterate e mainline

unfoldable pub iterate_ids :
    (Event → List Event → Result (List Event))
    → Assoc Event
    → List String
    → List Event
    → Result (List Event)
iterate_ids iterate auth_event_map [] mainline = ok mainline
iterate_ids iterate auth_event_map (id ∷ ids) mainline =
    iterate_if iterate mainline (power_levels_event auth_event_map id)
    >>= iterate_ids iterate auth_event_map ids

unfoldable pub iterate : ℕ → Assoc Event → Event → List Event → Result (List Event)
iterate zero auth_event_map event mainline = panic
iterate (suc fuel) auth_event_map event mainline =
    iterate_ids (iterate fuel auth_event_map) auth_event_map (auth_event_ids event)
      (event ∷ mainline)

abbrev mainline_from : ℕ → Assoc Event → Option Event → Result (List Event)
mainline_from fuel auth_event_map none = ok []
mainline_from fuel auth_event_map (some event) = iterate fuel auth_event_map event []

unfoldable pub create_power_level_mainline : ℕ → Assoc Event → Option Event → Result (List Event)
unfolding iterate iterate_ids
create_power_level_mainline fuel auth_event_map resolved_power_levels =
    mainline_from fuel auth_event_map resolved_power_levels

-- `r.powerLevelMainlinePos`, filled from the mainline.
unfoldable pub mainline_positions : ℕ → List Event → Assoc ℕ → Assoc ℕ
mainline_positions n [] positions = positions
mainline_positions n (event ∷ mainline) positions =
    mainline_positions (n + 1) mainline (insert event.event_id n positions)

-- What getFirstPowerLevelMainlineEvent writes while it goes on.
pub record Search : Type 0 where
  pub mainline_event : Option Event
  pub mainline_position : ℕ
  pub steps : ℕ
  pub positions : Assoc ℕ

abbrev nothing_found : Assoc ℕ → Search
nothing_found positions = record {
  mainline_event = none;
  mainline_position = 0;
  steps = 0;
  positions = positions;
}

abbrev found_in_mainline : Event → ℕ → Search → Search
found_in_mainline e position s = record s {
  mainline_event = some e;
  mainline_position = position;
  positions = insert e.event_id position s.positions;
}

-- The loop of its iterator: an event in the mainline ends it, and it goes on after another one.
abbrev search_if :
    (Event → Search → Result Search)
    → Event
    → Search
    → Option ℕ
    → (Search → Result Search)
    → Result Search
search_if search e s (some position) go_on = ok (found_in_mainline e position s)
search_if search e s none go_on = search e (record s { steps = s.steps + 1 }) >>= go_on

abbrev search_event :
    (Event → Search → Result Search)
    → Search
    → Option Event
    → (Search → Result Search)
    → Result Search
search_event search s none go_on = go_on s
search_event search s (some e) go_on = search_if search e s (lookup e.event_id s.positions) go_on

unfoldable pub search_ids :
    (Event → Search → Result Search) → Assoc Event → List String → Search → Result Search
search_ids search auth_event_map [] s = ok s
search_ids search auth_event_map (id ∷ ids) s =
    search_event search s (power_levels_event auth_event_map id)
      (search_ids search auth_event_map ids)

unfoldable pub search : ℕ → Assoc Event → Event → Search → Result Search
search zero auth_event_map event s = panic
search (suc fuel) auth_event_map event s =
    search_ids (search fuel auth_event_map) auth_event_map (auth_event_ids event) s

unfoldable pub get_first_power_level_mainline_event :
    ℕ → Assoc Event → Assoc ℕ → Event → Result Search
unfolding search search_ids
get_first_power_level_mainline_event fuel auth_event_map positions event =
    search fuel auth_event_map event (nothing_found positions)

abbrev pub wrap_other : Event → ℕ → ConflictedOther
wrap_other event position = record {
  mainline_position = pos position;
  origin_server_ts = to_int64 event.origin_server_ts;
  event_id = event.event_id;
  event = event;
}

-- The positions that a search leaves are those that the next one starts with.
unfoldable pub wrap_other_events_for_sort :
    ℕ → Assoc Event → Assoc ℕ → List Event → Result (List ConflictedOther)
wrap_other_events_for_sort fuel auth_event_map positions [] = ok []
wrap_other_events_for_sort fuel auth_event_map positions (event ∷ events) =
    get_first_power_level_mainline_event fuel auth_event_map positions event >>= λ s.
    wrap_other_events_for_sort fuel auth_event_map s.positions events >>= λ rest.
    ok (wrap_other event s.mainline_position ∷ rest)

unfoldable pub mainline_ordering : ℕ → Assoc Event → Assoc ℕ → List Event → Result (List Event)
mainline_ordering fuel auth_event_map positions events =
    wrap_other_events_for_sort fuel auth_event_map positions events >>= λ block.
    ok (map (λ (x : ConflictedOther). x.event) (sort_by other_less block))
