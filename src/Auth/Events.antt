-- ===== src/Auth/Events.antt =====
-- The checks of eventauth.go for the events that are no membership events.
pub mod PowerLevels
use gomatrixserverlib.Prelude.{
  Bool, true, false, not, ◌&&◌, Option, none, some, List, [], ◌∷◌, String, ◌==◌, if◌then◌else◌,
  keys,
}
use gomatrixserverlib.Prelude.Int.{leb_ℤ}
use gomatrixserverlib.Prelude.Text.{first_is, after_first}
use gomatrixserverlib.Result.{
  Result, ok, panic, Check, require, for_each, create_state_key, create_domain, create_prev_events,
  wrong_room, alias_state_key, invalid_user_id, redact_level, ◌>>=◌, ◌>>◌,
}
use gomatrixserverlib.Event.{Event, state_key_equals, prev_events}
use gomatrixserverlib.Version.Queries.{power_levels_include_notifications}
use gomatrixserverlib.Content.Create.{domain_from_id, domain_allowed}
use gomatrixserverlib.Content.PowerLevels.{user_level, new_power_level_content_from_event}
use gomatrixserverlib.Auth.Context.{AllowerContext, EventAllower, new_event_allower, common_checks}
use gomatrixserverlib.Auth.Levels.{check_event_levels, check_user_levels, check_notification_levels}

abbrev is_nil {ℓ} : {A : Type ℓ} → List A → Bool
is_nil [] = true
is_nil (_ ∷ _) = false

unfoldable pub create_event_allowed : Event → Check
create_event_allowed event = do
  require (state_key_equals event "") create_state_key
  room_id_domain ← domain_from_id event.room_id
  sender_domain ← domain_from_id event.sender
  require (sender_domain == room_id_domain) create_domain
  prev ← prev_events event
  require (is_nil prev) create_prev_events

-- The message of the last check dereferences the state key, which an event need not have.
abbrev alias_key_check : Option String → String → Check
alias_key_check none sender_domain = panic
alias_key_check (some sk) sender_domain = require (sk == sender_domain) alias_state_key

unfoldable pub alias_event_allowed : AllowerContext → Event → Check
alias_event_allowed a event = do
  sender_domain ← domain_from_id event.sender
  require (event.room_id == a.create.room_id) wrong_room
  domain_allowed a.create sender_domain
  alias_key_check event.state_key sender_domain

-- `userID[0]` panics on an empty ID.
unfoldable pub is_valid_user_id : String → Result Bool
unfolding after_first
is_valid_user_id String.[] = panic
is_valid_user_id (String.◌∷◌ c id) =
    let user_id = String.◌∷◌ c id in
    ok (first_is b'@' user_id && elim (after_first b':' user_id) [ none ↦ false | some _ ↦ true ])

unfoldable pub check_user_id : String → Check
unfolding is_valid_user_id
check_user_id user_id = do valid ← is_valid_user_id user_id; require valid (invalid_user_id user_id)

-- An unknown room version skips the check of the notification levels.
abbrev with_notifications : Result Bool → Check → Check
with_notifications (ok true) check = check
with_notifications _ check = ok tt

-- The checks once the sender's membership is loaded.
unfoldable pub power_levels_checks : AllowerContext → Event → EventAllower → Check
power_levels_checks a event allower = do
  common_checks allower event
  let (new_power_levels, read) = new_power_level_content_from_event event
  read
  for_each check_user_id (keys new_power_levels.users)
  let old_power_levels = a.power_levels
  let sender_level = user_level old_power_levels event.sender
  check_event_levels sender_level old_power_levels new_power_levels
  with_notifications (power_levels_include_notifications event.room_version)
      (check_notification_levels sender_level old_power_levels new_power_levels)
  check_user_levels sender_level event.sender old_power_levels new_power_levels

unfoldable pub power_levels_event_allowed : AllowerContext → Event → Check
power_levels_event_allowed a event = do
  allower ← new_event_allower a event.sender
  power_levels_checks a event allower

-- `roomVersion != nil && *roomVersion != "1" && *roomVersion != "2"`
abbrev redacts_freely : Option String → Bool
redacts_freely none = false
redacts_freely (some v) = not (v == "1") && not (v == "2")

unfoldable pub redact_domain_or_level : EventAllower → Event → Check
redact_domain_or_level allower event = do
  sender_domain ← domain_from_id event.sender
  redact_domain ← domain_from_id event.redacts
  if sender_domain == redact_domain
      then ok tt
      else require
          (leb_ℤ allower.power_levels.redact (user_level allower.power_levels event.sender))
          redact_level

unfoldable pub redact_event_allowed : AllowerContext → Event → Check
unfolding redact_domain_or_level
redact_event_allowed a event = do
  allower ← new_event_allower a event.sender
  common_checks allower event
  if redacts_freely allower.create.room_version then ok tt else redact_domain_or_level allower event

unfoldable pub default_event_allowed : AllowerContext → Event → Check
default_event_allowed a event = do
  allower ← new_event_allower a event.sender
  common_checks allower event
