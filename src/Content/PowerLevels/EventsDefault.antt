-- ===== src/Content/PowerLevels/EventsDefault.antt =====
-- The level `events_default` as the two ways of reading power levels see it.
use gomatrixserverlib.Prelude.{
  Bool-cases, if◌then◌else◌, inl, inr, ◌≡◌, refl, Bool, true, false, some, String, arith, ◌∙◌,
}
use gomatrixserverlib.Prelude.Int.{pos}
use gomatrixserverlib.Result.{ok}
use gomatrixserverlib.Content.PowerLevels.{
  read_levels, LooseLevels, zero_loose, loose_field, assign_levels, defaults, zero_power_levels,
  new_power_level_content_from_event,
}
use gomatrixserverlib.Json.{Json, Members, obj, end, member, names, decode_members}
use gomatrixserverlib.Event.{Event}
use gomatrixserverlib.Version.Queries.{require_integer_power_levels}
use gomatrixserverlib.Content.PowerLevels.Level.{assign_if_exists}

-- No member of the object is named "event_default".
abbrev pub NotNamed : Members → Type 0
NotNamed end = Unit
NotNamed (member k v ms) = (names "event_default" k ≡ false) × NotNamed ms

field_default :
    (k : String) (j : Json) (c : LooseLevels)
    → names "event_default" k ≡ false
    → (loose_field k j c).0.event_default_level ≡ c.event_default_level
unfolding loose_field
field_default k j c h = ground arith

members_default :
    (ms : Members) (c : LooseLevels)
    → NotNamed ms
    → (decode_members loose_field ms c).0.event_default_level ≡ c.event_default_level
unfolding decode_members
members_default end c h = refl
members_default (member k v ms) c h =
    members_default ms (loose_field k v c).0 h.1 ∙ field_default k v c h.0

-- Once the object has been read, with or without a type error.
read_default :
    (ms : Members)
    → NotNamed ms
    → (fits : Bool)
    → (if fits
        then (assign_levels
            (decode_members loose_field ms zero_loose).0
            (defaults zero_power_levels)).events_default
        else (defaults zero_power_levels).events_default)
      ≡ pos 0
unfolding assign_levels defaults assign_if_exists
read_default ms h true = rw (members_default ms zero_loose h)
read_default ms h false = refl

-- In a room version that reads levels loosely, the default level of events that a power levels
-- event gives as "events_default" is ignored: if the content is an object in which no key is
-- "event_default", up to case, the level is 0.
pub events_default_ignored :
    (event : Event) (ms : Members)
    → require_integer_power_levels event.room_version ≡ ok false
    → event.content ≡ some (obj ms)
    → NotNamed ms
    → (new_power_level_content_from_event event).0.events_default ≡ pos 0
unfolding new_power_level_content_from_event read_levels
events_default_ignored event ms v c h =
    rw (v, c)
      (elim (Bool-cases (decode_members loose_field ms zero_loose).1) [
        | inl fits ↦ rw fits (read_default ms h true)
        | inr not_fits ↦ rw not_fits (read_default ms h false)
      ])
