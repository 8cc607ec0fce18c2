-- ===== src/Auth/Levels/Unchecked.antt =====
-- What the comparisons of power levels in eventauth.go do not look at.
use gomatrixserverlib.Prelude.{◌≡◌, refl, String}
use gomatrixserverlib.Prelude.Int.{ℤ}
use gomatrixserverlib.Content.PowerLevels.{PowerLevelContent}
use gomatrixserverlib.Auth.Levels.{check_event_levels, check_user_levels, check_notification_levels}

-- None of the three comparisons of levels depends on the old or on the new default level of users.
pub users_default_unchecked :
    (s d₀ d₁ : ℤ) (sender : String) (old new : PowerLevelContent)
    → (check_event_levels s (record old { users_default = d₀ }) (record new { users_default = d₁ })
        ≡ check_event_levels s old new)
      × (check_user_levels s sender
            (record old { users_default = d₀ })
            (record new { users_default = d₁ })
          ≡ check_user_levels s sender old new)
      × (check_notification_levels s
            (record old { users_default = d₀ })
            (record new { users_default = d₁ })
          ≡ check_notification_levels s old new)
unfolding check_event_levels check_user_levels check_notification_levels
users_default_unchecked s d₀ d₁ sender old new = (refl, refl, refl)
