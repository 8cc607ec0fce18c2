-- ===== src/Auth/Events/PowerLevels.antt =====
-- powerLevelsEventAllowed of eventauth.go: what an accepted change of the power levels satisfies.
use gomatrixserverlib.Prelude.{lookup, none, eq_iff, true, ◌≡◌, ◌≢◌, String, arith}
use gomatrixserverlib.Prelude.Int.{ℤ, ◌≤ℤ◌}
use gomatrixserverlib.Result.{ok}
use gomatrixserverlib.Auth.Events.{with_notifications}
use gomatrixserverlib.Event.{Event, join}
use gomatrixserverlib.Version.Queries.{power_levels_include_notifications}
use gomatrixserverlib.Content.Create.{user_id_allowed}
use gomatrixserverlib.Content.Member.{new_member_content_from_auth_events}
use gomatrixserverlib.Content.PowerLevels.{
  PowerLevelContent, user_level, event_level, new_power_level_content_from_event,
}
use gomatrixserverlib.Auth.Context.{
  AllowerContext, EventAllower, new_event_allower, common_checks, is_some, owns_state_key,
}
use gomatrixserverlib.Auth.Levels.{
  check_event_levels, check_user_levels, check_notification_levels, pair,
}
use gomatrixserverlib.Auth.Levels.EventBounds.{EventLevelsAllowed}
use gomatrixserverlib.Auth.Levels.UserBounds.{MayChange, told}
use gomatrixserverlib.Auth.Levels.NotificationBounds.{IsBelow, at_name}

-- What the checks that are common to most events establish of the sender.
pub record IsCommon (e : EventAllower) (event : Event) : Type 0 where
  pub same_room : event.room_id ≡ e.create.room_id
  pub federated : user_id_allowed e.create event.sender ≡ ok tt
  pub in_room : e.member.membership ≡ join
  pub level :
      event_level e.power_levels event.event_type (is_some event.state_key)
      ≤ℤ user_level e.power_levels event.sender
  pub owner : owns_state_key event.sender event.state_key ≡ true

pub common_checks-IsCommon :
    (e : EventAllower) (event : Event) → common_checks e event ≡ ok tt → IsCommon e event
unfolding common_checks
common_checks-IsCommon e event h =
    ground (arith, eq_iff event.room_id e.create.room_id, eq_iff e.member.membership join)

pub new_event_allower-facts :
    (a : AllowerContext) (sender : String) (e : EventAllower)
    → new_event_allower a sender ≡ ok e
    → (e.allower_context ≡ a)
      × (new_member_content_from_auth_events a.provider sender ≡ ok e.member)
unfolding new_event_allower
new_event_allower-facts a sender e h = ground arith

-- A power levels event with levels that can be read, from a sender who passes the common checks, and
-- which changes only what the three comparisons of levels let that sender change.
pub record PowerLevelsSound (a : AllowerContext) (event : Event) : Type 0 where
  pub sender_allower : EventAllower
  pub common : IsCommon sender_allower event
  pub from_context : sender_allower.allower_context ≡ a
  pub readable : (new_power_level_content_from_event event).1 ≡ ok tt
  pub events :
      EventLevelsAllowed
        (user_level a.power_levels event.sender)
        a.power_levels
        (new_power_level_content_from_event event).0
  pub users :
      (user : String)
      → lookup user (new_power_level_content_from_event event).0.users ≢ none
      → MayChange
          (user_level a.power_levels event.sender)
          event.sender
          user
          (pair (told a.power_levels user) (told (new_power_level_content_from_event event).0 user))
  pub notifications :
      power_levels_include_notifications event.room_version ≡ ok true
      → (n : String)
      → IsBelow
          (user_level a.power_levels event.sender)
          (at_name a.power_levels (new_power_level_content_from_event event).0 n)

module _ (a : AllowerContext) (event : Event) where
  abbrev new : PowerLevelContent
  new = (new_power_level_content_from_event event).0

  abbrev level : ℤ
  level = user_level a.power_levels event.sender

  -- The parts of the chain of checks, each of which passed.
  record Passed (e : EventAllower) : Type 0 where
    loaded : new_event_allower a event.sender ≡ ok e
    common : common_checks e event ≡ ok tt
    readable : (new_power_level_content_from_event event).1 ≡ ok tt
    events : check_event_levels level a.power_levels new ≡ ok tt
    notifications :
        with_notifications
          (power_levels_include_notifications event.room_version)
          (check_notification_levels level a.power_levels new)
        ≡ ok tt
    users : check_user_levels level event.sender a.power_levels new ≡ ok tt
