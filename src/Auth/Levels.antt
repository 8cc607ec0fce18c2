-- ===== src/Auth/Levels.antt =====
-- The comparisons of old and new power levels in eventauth.go: checkEventLevels, checkUserLevels and
-- checkNotificationLevels. Go ranges over a map in an order that it does not fix; here the order is
-- that of the association list.
pub mod EventBounds
pub mod UserBounds
pub mod NotificationBounds
pub mod Unchecked
use gomatrixserverlib.Prelude.{
  false, Option, none, some, List, ◌∷◌, ◌++◌, String, ◌==◌, map, if◌then◌else◌, keys, lookup,
}
use gomatrixserverlib.Prelude.Int.{ℤ, pos, ltb_ℤ, leb_ℤ, eq_ℤ}
use gomatrixserverlib.Result.{
  ok, err, Check, not_allowed, new_level_too_high, old_level_too_high, for_each,
}
use gomatrixserverlib.Content.PowerLevels.{PowerLevelContent, event_level, notification_level}

pub record LevelPair : Type 0 where
  pub old : ℤ
  pub new : ℤ

abbrev pub pair : ℤ → ℤ → LevelPair
pair old new = record { old = old; new = new }

unfoldable pub event_level_checks : PowerLevelContent → PowerLevelContent → List LevelPair
unfolding event_level
event_level_checks old new =
    let at = λ (event_type : String).
      pair (event_level old event_type false) (event_level new event_type false) in
    pair old.ban new.ban
      ∷ pair old.invite new.invite
      ∷ pair old.kick new.kick
      ∷ pair old.redact new.redact
      ∷ pair old.state_default new.state_default
      ∷ pair old.events_default new.events_default
      ∷ map at (keys new.events)
    ++ map at (keys old.events)

unfoldable pub check_event_level : ℤ → LevelPair → Check
check_event_level sender_level level =
    if eq_ℤ level.old level.new
    then ok tt
    else if ltb_ℤ sender_level level.new
    then err (not_allowed new_level_too_high)
    else if ltb_ℤ sender_level level.old
    then err (not_allowed old_level_too_high)
    else ok tt

unfoldable pub check_event_levels : ℤ → PowerLevelContent → PowerLevelContent → Check
unfolding event_level_checks check_event_level for_each
check_event_levels sender_level old new =
    for_each (check_event_level sender_level) (event_level_checks old new)

-- `levels[k]`, which is 0 for a missing key
abbrev pub or_zero : Option ℤ → ℤ
or_zero none = pos 0
or_zero (some level) = level

unfoldable pub user_level_checks : PowerLevelContent → PowerLevelContent → List (String × LevelPair)
unfolding lookup
user_level_checks old new =
    map
      (λ user_id.
        (user_id, pair (or_zero (lookup user_id old.users)) (or_zero (lookup user_id new.users))))
      (keys new.users)

unfoldable pub check_user_level : ℤ → String → String × LevelPair → Check
check_user_level sender_level sender_id (user_id, level) =
    if eq_ℤ level.old level.new
    then ok tt
    else if ltb_ℤ sender_level level.new
    then err (not_allowed new_level_too_high)
    else if user_id == sender_id
    then ok tt
    else if leb_ℤ sender_level level.old
    then err (not_allowed old_level_too_high)
    else ok tt

unfoldable pub check_user_levels : ℤ → String → PowerLevelContent → PowerLevelContent → Check
unfolding user_level_checks check_user_level for_each
check_user_levels sender_level sender_id old new =
    for_each (check_user_level sender_level sender_id) (user_level_checks old new)

unfoldable pub notification_level_checks : PowerLevelContent → PowerLevelContent → List LevelPair
unfolding notification_level
notification_level_checks old new =
    let at = λ (n : String). pair (notification_level old n) (notification_level new n) in
    map at (keys new.notifications) ++ map at (keys old.notifications)

unfoldable pub check_notification_level : ℤ → LevelPair → Check
check_notification_level sender_level level =
    if eq_ℤ level.old level.new
    then ok tt
    else if ltb_ℤ sender_level level.new
    then err (not_allowed new_level_too_high)
    else if leb_ℤ sender_level level.old
    then err (not_allowed old_level_too_high)
    else ok tt

unfoldable pub check_notification_levels : ℤ → PowerLevelContent → PowerLevelContent → Check
unfolding notification_level_checks check_notification_level for_each
check_notification_levels sender_level old new =
    for_each (check_notification_level sender_level) (notification_level_checks old new)
