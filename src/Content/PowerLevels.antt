-- ===== src/Content/PowerLevels.antt =====
-- `PowerLevelContent` of eventcontent.go: the power levels of a room, with the two ways in which
-- they are read from an event.
pub mod Level
pub mod EventsDefault
use gomatrixserverlib.Prelude.{
  false, Bool, true, Option, none, some, [], ◌∷◌, String, ◌==◌, if◌then◌else◌, Assoc, lookup,
  insert,
}
use gomatrixserverlib.Prelude.Int.{ℤ, pos}
use gomatrixserverlib.Result.{Result, ok, err, panic, Check, not_allowed, unparsable_power_levels}
use gomatrixserverlib.Json.{
  Decoder, names, decode_int64, decode_map, decode_struct, into, unmarshal,
}
use gomatrixserverlib.Event.{Event, m_room_third_party_invite}
use gomatrixserverlib.Version.Queries.{require_integer_power_levels}
use gomatrixserverlib.Auth.Provider.{AuthEventProvider}
use Level.{LevelJsonValue, no_value, decode_level, assign_if_exists}

pub record PowerLevelContent : Type 0 where
  pub ban : ℤ
  pub invite : ℤ
  pub kick : ℤ
  pub redact : ℤ
  pub users : Assoc ℤ
  pub users_default : ℤ
  pub events : Assoc ℤ
  pub events_default : ℤ
  pub state_default : ℤ
  pub notifications : Assoc ℤ

abbrev pub zero_power_levels : PowerLevelContent
zero_power_levels = record {
  ban = pos 0;
  invite = pos 0;
  kick = pos 0;
  redact = pos 0;
  users = [];
  users_default = pos 0;
  events = [];
  events_default = pos 0;
  state_default = pos 0;
  notifications = [];
}

abbrev or_default : Option ℤ → ℤ → ℤ
or_default none d = d
or_default (some level) d = level

unfoldable pub user_level : PowerLevelContent → String → ℤ
unfolding lookup
user_level c user_id = or_default (lookup user_id c.users) c.users_default

unfoldable pub event_level : PowerLevelContent → String → Bool → ℤ
unfolding lookup
event_level c event_type is_state =
    if event_type == m_room_third_party_invite
    then c.invite
    else or_default (lookup event_type c.events)
        (if is_state then c.state_default else c.events_default)

unfoldable pub notification_level : PowerLevelContent → String → ℤ
unfolding lookup
notification_level c notification = or_default (lookup notification c.notifications) (pos 50)

-- Defaults
unfoldable pub defaults : PowerLevelContent → PowerLevelContent
defaults c = record c {
  invite = pos 50;
  ban = pos 50;
  kick = pos 50;
  redact = pos 50;
  users_default = pos 0;
  events_default = pos 0;
  state_default = pos 50;
  notifications = ("room", pos 50) ∷ [];
}

-- The JSON names of `PowerLevelContent`, for the room versions that want integers.
unfoldable pub strict_field : String → Decoder PowerLevelContent
unfolding names decode_int64 decode_map
strict_field k j c =
    if names "ban" k
    then into decode_int64 j c.ban (λ v. record c { ban = v })
    else if names "invite" k
    then into decode_int64 j c.invite (λ v. record c { invite = v })
    else if names "kick" k
    then into decode_int64 j c.kick (λ v. record c { kick = v })
    else if names "redact" k
    then into decode_int64 j c.redact (λ v. record c { redact = v })
    else if names "users" k
    then into (decode_map (pos 0) decode_int64) j c.users (λ v. record c { users = v })
    else if names "users_default" k
    then into decode_int64 j c.users_default (λ v. record c { users_default = v })
    else if names "events" k
    then into (decode_map (pos 0) decode_int64) j c.events (λ v. record c { events = v })
    else if names "events_default" k
    then into decode_int64 j c.events_default (λ v. record c { events_default = v })
    else if names "state_default" k
    then into decode_int64 j c.state_default (λ v. record c { state_default = v })
    else if names "notifications" k
    then into (decode_map (pos 0) decode_int64) j c.notifications
        (λ v. record c { notifications = v })
    else (c, true)

-- The anonymous struct that the other room versions read the levels with.
pub record LooseLevels : Type 0 where
  pub invite_level : LevelJsonValue
  pub ban_level : LevelJsonValue
  pub kick_level : LevelJsonValue
  pub redact_level : LevelJsonValue
  pub user_levels : Assoc LevelJsonValue
  pub users_default_level : LevelJsonValue
  pub event_levels : Assoc LevelJsonValue
  pub state_default_level : LevelJsonValue
  pub event_default_level : LevelJsonValue
  pub notification_levels : Assoc LevelJsonValue

abbrev pub zero_loose : LooseLevels
zero_loose = record {
  invite_level = no_value;
  ban_level = no_value;
  kick_level = no_value;
  redact_level = no_value;
  user_levels = [];
  users_default_level = no_value;
  event_levels = [];
  state_default_level = no_value;
  event_default_level = no_value;
  notification_levels = [];
}

unfoldable pub loose_field : String → Decoder LooseLevels
unfolding names decode_level decode_map
loose_field k j c =
    if names "invite" k
    then into decode_level j c.invite_level (λ v. record c { invite_level = v })
    else if names "ban" k
    then into decode_level j c.ban_level (λ v. record c { ban_level = v })
    else if names "kick" k
    then into decode_level j c.kick_level (λ v. record c { kick_level = v })
    else if names "redact" k
    then into decode_level j c.redact_level (λ v. record c { redact_level = v })
    else if names "users" k
    then into (decode_map no_value decode_level) j c.user_levels (λ v. record c { user_levels = v })
    else if names "users_default" k
    then into decode_level j c.users_default_level (λ v. record c { users_default_level = v })
    else if names "events" k
    then into (decode_map no_value decode_level) j c.event_levels
        (λ v. record c { event_levels = v })
    else if names "state_default" k
    then into decode_level j c.state_default_level (λ v. record c { state_default_level = v })
    else if names "event_default" k
    then into decode_level j c.event_default_level (λ v. record c { event_default_level = v })
    else if names "notifications" k
    then into (decode_map no_value decode_level) j c.notification_levels
        (λ v. record c { notification_levels = v })
    else (c, true)

-- `for k, v := range levels { m[k] = v.value }`
unfoldable pub assign_all : Assoc LevelJsonValue → Assoc ℤ → Assoc ℤ
unfolding insert
assign_all [] m = m
assign_all ((k, v) ∷ levels) m = assign_all levels (insert k v.value m)

unfoldable pub assign_levels : LooseLevels → PowerLevelContent → PowerLevelContent
unfolding assign_all
assign_levels content c = record {
  invite = assign_if_exists content.invite_level c.invite;
  ban = assign_if_exists content.ban_level c.ban;
  kick = assign_if_exists content.kick_level c.kick;
  redact = assign_if_exists content.redact_level c.redact;
  users_default = assign_if_exists content.users_default_level c.users_default;
  state_default = assign_if_exists content.state_default_level c.state_default;
  events_default = assign_if_exists content.event_default_level c.events_default;
  users = assign_all content.user_levels c.users;
  events = assign_all content.event_levels c.events;
  notifications = assign_all content.notification_levels c.notifications;
}

-- Unmarshal directly, which fails where a level is no integer, or through `LooseLevels`.
unfoldable pub read_levels : Bool → Event → PowerLevelContent → PowerLevelContent × Check
unfolding decode_struct strict_field loose_field assign_levels
read_levels true event c =
    let (c', fits) = unmarshal (decode_struct strict_field) event.content c in
    (c', if fits then ok tt else err (not_allowed unparsable_power_levels))
read_levels false event c =
    let (content, fits) = unmarshal (decode_struct loose_field) event.content zero_loose in
    if fits
    then (assign_levels content c, ok tt)
    else (c, err (not_allowed unparsable_power_levels))

abbrev pub by_strictness : Event → PowerLevelContent → Result Bool → PowerLevelContent × Check
by_strictness event c (ok strict) = read_levels strict event c
by_strictness event c (err e) = (c, err e)
by_strictness event c panic = (c, panic)

-- The levels that are left in `c`, and the error.
unfoldable pub new_power_level_content_from_event : Event → PowerLevelContent × Check
new_power_level_content_from_event event =
    by_strictness event (defaults zero_power_levels)
      (require_integer_power_levels event.room_version)

-- Without a power level event the creator has the largest level that JSON can hold.
unfoldable pub new_power_level_content_from_auth_events :
    AuthEventProvider → String → PowerLevelContent × Check
unfolding defaults new_power_level_content_from_event
new_power_level_content_from_auth_events auth_events creator_user_id =
    elim auth_events.power_levels [
      | ok none ↦ (
        record (defaults zero_power_levels) {
          users = (creator_user_id, pos 9007199254740991) ∷ [];
          state_default = pos 50;
        },
        ok tt,
      )
      | ok (some power_levels_event) ↦ new_power_level_content_from_event power_levels_event
      | err e ↦ (zero_power_levels, err e)
      | panic ↦ (zero_power_levels, panic)
    ]
