-- ===== src/Tests/LevelTests.antt =====
-- Tests of the comparisons of power levels.
use gomatrixserverlib.Prelude.{◌≡◌, ◌≢◌, ◌↔◌, refl, true, none, [], ◌∷◌, String, lookup, erase}
use gomatrixserverlib.Prelude.Int.{pos}
use gomatrixserverlib.Result.{ok, err, not_allowed, new_level_too_high}
use gomatrixserverlib.Content.PowerLevels.{PowerLevelContent, event_level, user_level}
use gomatrixserverlib.Auth.Levels.{
  check_event_levels, check_user_levels, check_notification_levels, pair,
}
use gomatrixserverlib.Auth.Levels.EventBounds.{EventLevelsAllowed, check_event_levels_iff}
use gomatrixserverlib.Auth.Levels.UserBounds.{
  MayChange, told, check_user_levels_iff, removal_unchecked,
}
use gomatrixserverlib.Auth.Levels.NotificationBounds.{
  IsBelow, at_name, check_notification_levels_iff,
}
use gomatrixserverlib.Auth.Levels.Unchecked.{users_default_unchecked}
use gomatrixserverlib.Tests.Samples.{alice, bob, carol, levels}

-- Carol gets level 10, and topics may be set at 30.
abbrev changed : PowerLevelContent
changed = record levels {
  users = (alice, pos 100) ∷ (bob, pos 50) ∷ (carol, pos 10) ∷ [];
  events = ("m.room.topic", pos 30) ∷ [];
}

event_levels_example :
    (check_event_levels (pos 50) levels changed ≡ ok tt)
    ↔ EventLevelsAllowed (pos 50) levels changed
event_levels_example = check_event_levels_iff (pos 50) levels changed

user_levels_example : (check_user_levels (pos 50) bob levels changed ≡ ok tt) ↔ (
    (user : String)
    → lookup user changed.users ≢ none
    → MayChange (pos 50) bob user (pair (told levels user) (told changed user)))
user_levels_example = check_user_levels_iff (pos 50) bob levels changed

notification_levels_example :
    (check_notification_levels (pos 50) levels changed ≡ ok tt)
    ↔ ((n : String) → IsBelow (pos 50) (at_name levels changed n))
notification_levels_example = check_notification_levels_iff (pos 50) levels changed

changed_by_bob :
    (check_event_levels (pos 50) levels changed ≡ ok tt)
    × (check_user_levels (pos 50) bob levels changed ≡ ok tt)
unfolding check_event_levels check_user_levels
changed_by_bob = (refl, refl)

carol_too_high :
    check_user_levels (pos 50) bob levels (record changed { users = (carol, pos 60) ∷ [] })
    ≡ err (not_allowed new_level_too_high)
unfolding check_user_levels
carol_too_high = refl

removal_unchecked_example :
    check_user_levels (pos 50) bob levels (record changed { users = erase alice changed.users })
    ≡ ok tt
removal_unchecked_example = removal_unchecked (pos 50) bob alice levels changed changed_by_bob.1

users_default_unchecked_example :
    (check_event_levels
        (pos 50)
        (record levels { users_default = pos 0 })
        (record changed { users_default = pos 100 })
      ≡ check_event_levels (pos 50) levels changed)
    × (check_user_levels
          (pos 50)
          bob
          (record levels { users_default = pos 0 })
          (record changed { users_default = pos 100 })
        ≡ check_user_levels (pos 50) bob levels changed)
    × (check_notification_levels
          (pos 50)
          (record levels { users_default = pos 0 })
          (record changed { users_default = pos 100 })
        ≡ check_notification_levels (pos 50) levels changed)
users_default_unchecked_example =
    users_default_unchecked (pos 50) (pos 0) (pos 100) bob levels changed

-- A type without a level of its own has the level 100 for state events, and gets 50.
abbrev low_names : PowerLevelContent
low_names = record levels { state_default = pos 100; events = ("m.room.name", pos 50) ∷ [] }

state_level_falls :
    (check_event_levels (pos 50) (record levels { state_default = pos 100 }) low_names ≡ ok tt)
    × (event_level (record levels { state_default = pos 100 }) "m.room.name" true ≡ pos 100)
    × (event_level low_names "m.room.name" true ≡ pos 50)
unfolding check_event_levels event_level lookup
state_level_falls = (refl, refl, refl)

-- A user without a level of their own has the default level, 100, and is set to 50 by one of 100.
unnamed_user_falls :
    (check_user_levels
        (pos 100)
        alice
        (record levels { users = (alice, pos 100) ∷ []; users_default = pos 100 })
        levels
      ≡ ok tt)
    × (user_level (record levels { users = (alice, pos 100) ∷ []; users_default = pos 100 }) bob
        ≡ pos 100)
    × (user_level levels bob ≡ pos 50)
unfolding check_user_levels user_level lookup
unnamed_user_falls = (refl, refl, refl)
