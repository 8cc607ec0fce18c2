-- ===== src/ResolutionV2.antt =====
-- stateresolutionv2.go: the partial state of `stateResolverV2` and how events are applied to it.
pub mod Applied
pub mod Order
pub mod SenderLevel
pub mod Kahn
pub mod Mainline
pub mod Driver
pub mod Resolver
use gomatrixserverlib.Prelude.Text.{concat}
use gomatrixserverlib.Prelude.{
  Bool, true, false, Option, none, some, List, [], ◌∷◌, String, ◌||◌, ◌==◌, if◌then◌else◌, Assoc,
  lookup, insert,
}
use gomatrixserverlib.Result.{ok}
use gomatrixserverlib.Json.{unmarshal}
use gomatrixserverlib.Event.{
  Event, m_room_create, m_room_join_rules, m_room_power_levels, m_room_member,
  m_room_third_party_invite, leave, ban,
}
use gomatrixserverlib.Content.Member.{zero_member, decode_member}
use gomatrixserverlib.Auth.Provider.{AuthEventProvider}

-- The resolved events of the resolver.
pub record Resolved : Type 0 where
  pub create : Option Event
  pub power_levels : Option Event
  pub join_rules : Option Event
  pub third_party_invites : Assoc Event
  pub members : Assoc Event
  pub others : Assoc Event

abbrev pub nothing_resolved : Resolved
nothing_resolved = record {
  create = none;
  power_levels = none;
  join_rules = none;
  third_party_invites = [];
  members = [];
  others = [];
}

-- The resolver as an `AuthEventProvider`.
unfoldable pub resolver_provider : Resolved → AuthEventProvider
resolver_provider r = record {
  create = ok r.create;
  join_rules = ok r.join_rules;
  power_levels = ok r.power_levels;
  member = λ key. ok (lookup key r.members);
  third_party_invite = λ key. ok (lookup key r.third_party_invites);
}

-- The entry of the other events is under the type and the state key, one written after the other.
abbrev pub apply_state_event : Resolved → Event → String → Resolved
apply_state_event r event sk =
    let st = event.event_type in
    if st == m_room_create
    then (if sk == "" then record r { create = some event } else r)
    else if st == m_room_power_levels
    then (if sk == "" then record r { power_levels = some event } else r)
    else if st == m_room_join_rules
    then (if sk == "" then record r { join_rules = some event } else r)
    else if st == m_room_third_party_invite
    then (if sk == ""
        then r
        else record r { third_party_invites = insert sk event r.third_party_invites })
    else if st == m_room_member
    then (if sk == "" then r else record r { members = insert sk event r.members })
    else record r { others = insert (concat st sk) event r.others }

-- An event without a state key changes nothing.
abbrev pub apply_keyed : Resolved → Event → Option String → Resolved
apply_keyed r event none = r
apply_keyed r event (some sk) = apply_state_event r event sk

-- One round of the loop of applyEvents.
unfoldable pub apply_event : Resolved → Event → Resolved
apply_event r event = apply_keyed r event event.state_key

unfoldable pub apply_events : Resolved → List Event → Resolved
apply_events r [] = r
apply_events r (event ∷ events) = apply_events (apply_event r event) events

-- The events that are sorted topologically: power levels, join rules, and others' leaving or ban.
unfoldable pub is_control_event : Event → Bool
unfolding decode_member
is_control_event e =
    if e.event_type == m_room_power_levels
    then true
    else if e.event_type == m_room_join_rules
    then true
    else if e.event_type == m_room_member
    then elim e.state_key [
      | none ↦ false
      | some sk ↦
          if sk == ""
          then false
          else if e.sender == sk
          then false
          else (let (content, fits) = unmarshal decode_member e.content zero_member in
              if fits then content.membership == leave || content.membership == ban else false)
    ]
    else false
