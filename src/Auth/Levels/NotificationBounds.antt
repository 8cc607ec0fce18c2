-- ===== src/Auth/Levels/NotificationBounds.antt =====
-- checkNotificationLevels of eventauth.go against the levels that a sender reaches.
use gomatrixserverlib.Prelude.{
  All, All-append, All-append_left, All-append_right, All-imp, All-keys-lookup, All-map,
  All-of_forall, Assoc, Option-cases, String, arith, inl, inr, keys, lookup, map, map-All, ◌↔◌, ◌≡◌,
  ◌⊎◌,
}
use gomatrixserverlib.Prelude.Int.{ℤ, ◌≤ℤ◌, ◌<ℤ◌, eq_of_parts}
use gomatrixserverlib.Result.{All-for_each, for_each-All, ok}
use gomatrixserverlib.Content.PowerLevels.{PowerLevelContent, notification_level}
use gomatrixserverlib.Auth.Levels.{
  LevelPair, pair, notification_level_checks, check_notification_level, check_notification_levels,
}

-- A changed level was below the sender's and does not pass it.
abbrev pub IsBelow : ℤ → LevelPair → Type 0
IsBelow s p = (p.old ≡ p.new) ⊎ ((p.new ≤ℤ s) × (p.old <ℤ s))

abbrev pub at_name : PowerLevelContent → PowerLevelContent → String → LevelPair
at_name old new n = pair (notification_level old n) (notification_level new n)

check_notification_level-IsBelow :
    (s : ℤ) (p : LevelPair) → check_notification_level s p ≡ ok tt → IsBelow s p
unfolding check_notification_level
check_notification_level-IsBelow s p h = ground (arith, eq_of_parts p.old p.new)

IsBelow-check_notification_level :
    (s : ℤ) (p : LevelPair) → IsBelow s p → check_notification_level s p ≡ ok tt
unfolding check_notification_level
IsBelow-check_notification_level s p h = ground arith

module _ (s : ℤ) (old new : PowerLevelContent) where
  -- A name that neither content has is at 50 in both.
  checks-IsBelow :
      All (IsBelow s) (notification_level_checks old new)
      → (n : String) → IsBelow s (at_name old new n)
  unfolding notification_level_checks notification_level
  checks-IsBelow h n =
      let in_new =
        All-map (IsBelow s) (at_name old new) (keys new.notifications)
          (All-append_left (IsBelow s) (map (at_name old new) (keys new.notifications)) _ h) in
      let in_old =
        All-map (IsBelow s) (at_name old new) (keys old.notifications)
          (All-append_right (IsBelow s) (map (at_name old new) (keys new.notifications)) _ h) in
      let P = λ (k : String). IsBelow s (at_name old new k) in
      elim (Option-cases (lookup n new.notifications)) [
        | inr (v, e) ↦ All-keys-lookup P n new.notifications e in_new
        | inl absent_new ↦ elim (Option-cases (lookup n old.notifications)) [
          | inr (v, e) ↦ All-keys-lookup P n old.notifications e in_old
          | inl absent_old ↦ inl (rw (absent_new, absent_old))
        ]
      ]

  IsBelow-checks :
      ((n : String) → IsBelow s (at_name old new n))
      → All (IsBelow s) (notification_level_checks old new)
  unfolding notification_level_checks
  IsBelow-checks v =
      let at = λ (m : Assoc ℤ).
        map-All (IsBelow s) (at_name old new) (keys m)
          (All-of_forall (λ n. IsBelow s (at_name old new n)) v (keys m)) in
      All-append (IsBelow s) (map (at_name old new) (keys new.notifications)) _
        (at new.notifications) (at old.notifications)

  -- The comparison of notification levels accepts exactly if the level at every name is unchanged,
  -- or its new value is at most and its old value below the sender's level.
  pub check_notification_levels_iff :
      (check_notification_levels s old new ≡ ok tt) ↔ ((n : String) → IsBelow s (at_name old new n))
  unfolding check_notification_levels
  check_notification_levels_iff =
      let f = check_notification_level s in
      let l = notification_level_checks old new in
      (
        (λ h.
            checks-IsBelow
              (All-imp _ _ (check_notification_level-IsBelow s) l (All-for_each f l h))),
        (λ v.
            for_each-All f l
              (All-imp _ _ (IsBelow-check_notification_level s) l (IsBelow-checks v))),
      )
