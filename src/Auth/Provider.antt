-- ===== src/Auth/Provider.antt =====
-- `AuthEventProvider` of eventauth.go, which the contents are loaded from, and `AuthEvents`, its
-- implementation by a map.
use gomatrixserverlib.Prelude.{
  ◌≡◌, refl, Bool, ◌&&◌, Option, none, some, List, [], ◌∷◌, String, ◌==◌, eq_iff, arith,
  if◌then◌else◌,
}
use gomatrixserverlib.Result.{Result, ok, err, bad_event}
use gomatrixserverlib.Event.{
  Event, StateKeyTuple, m_room_create, m_room_join_rules, m_room_power_levels, m_room_member,
  m_room_third_party_invite,
}

-- The interface, by the answers of its methods.
pub record AuthEventProvider : Type 0 where
  pub create : Result (Option Event)
  pub join_rules : Result (Option Event)
  pub power_levels : Result (Option Event)
  pub member : String → Result (Option Event)
  pub third_party_invite : String → Result (Option Event)

-- The map of `AuthEvents`, in some order, with one entry for each key.
pub record AuthEvents : Type 0 where
  pub events : List (StateKeyTuple × Event)

abbrev pub same_key : StateKeyTuple → StateKeyTuple → Bool
same_key a b = a.event_type == b.event_type && a.state_key == b.state_key

unfoldable pub find_tuple : StateKeyTuple → List (StateKeyTuple × Event) → Option Event
find_tuple k [] = none
find_tuple k ((j, e) ∷ m) = if same_key j k then some e else find_tuple k m

unfoldable pub put_tuple :
    StateKeyTuple → Event → List (StateKeyTuple × Event) → List (StateKeyTuple × Event)
put_tuple k e [] = (k, e) ∷ []
put_tuple k e ((j, d) ∷ m) = if same_key j k then (k, e) ∷ m else (j, d) ∷ put_tuple k e m

abbrev pub key : String → String → StateKeyTuple
key t s = record { event_type = t; state_key = s }

-- AddEvent refuses an event that is no state event, and leaves the map alone.
abbrev pub add_keyed : AuthEvents → Event → Option String → AuthEvents × Result (Unit {0})
add_keyed a event none = (a, err bad_event)
add_keyed a event (some sk) =
    (record { events = put_tuple (key event.event_type sk) event a.events }, ok tt)

unfoldable pub add_event : AuthEvents → Event → AuthEvents × Result (Unit {0})
unfolding put_tuple
add_event a event = add_keyed a event event.state_key

unfoldable pub add_all : AuthEvents → List Event → AuthEvents
add_all a [] = a
add_all a (e ∷ es) = add_all (add_event a e).0 es

-- NewAuthEvents drops the errors of AddEvent.
unfoldable pub new_auth_events : List Event → AuthEvents
unfolding add_all add_event
new_auth_events events = add_all (record { events = [] }) events

-- The methods of `AuthEvents`.
unfoldable pub provider_of : AuthEvents → AuthEventProvider
unfolding find_tuple
provider_of a = record {
  create = ok (find_tuple (key m_room_create "") a.events);
  join_rules = ok (find_tuple (key m_room_join_rules "") a.events);
  power_levels = ok (find_tuple (key m_room_power_levels "") a.events);
  member = λ state_key. ok (find_tuple (key m_room_member state_key) a.events);
  third_party_invite =
      λ state_key. ok (find_tuple (key m_room_third_party_invite state_key) a.events);
}

pub find_tuple-put_tuple :
    (k j : StateKeyTuple) (e : Event) (m : List (StateKeyTuple × Event))
    → find_tuple j (put_tuple k e m) ≡ (if same_key k j then some e else find_tuple j m)
unfolding find_tuple put_tuple
find_tuple-put_tuple k j e [] = refl
find_tuple-put_tuple k j e ((i, d) ∷ m) = ground (
  arith,
  eq_iff i.event_type k.event_type,
  eq_iff i.state_key k.state_key,
  eq_iff i.event_type j.event_type,
  eq_iff i.state_key j.state_key,
  eq_iff k.event_type j.event_type,
  eq_iff k.state_key j.state_key,
  find_tuple-put_tuple k j e m,
)
