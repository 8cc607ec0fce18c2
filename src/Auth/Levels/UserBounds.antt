-- ===== src/Auth/Levels/UserBounds.antt =====
-- checkUserLevels of eventauth.go against the levels that a sender reaches.
use gomatrixserverlib.Prelude.{
  Bool-cases, lookup-erase, ◌==◌, ◌∙◌, erase, All-keys, All-keys-lookup, All-map, Option-cases,
  String, arith, eq_iff, inl, inr, keys, lookup, map, map-All, none, ◌↔◌, ◌≡◌, ◌≢◌, ◌⊎◌,
}
use gomatrixserverlib.Prelude.Int.{ℤ, ◌≤ℤ◌, ◌<ℤ◌, eq_of_parts}
use gomatrixserverlib.Result.{All-for_each, for_each-All, ok}
use gomatrixserverlib.Content.PowerLevels.{PowerLevelContent}
use gomatrixserverlib.Auth.Levels.{
  LevelPair, pair, or_zero, user_level_checks, check_user_level, check_user_levels,
}

-- A level may fall to anything if it is the sender's own; another user's must be below the sender's.
abbrev pub MayChange : ℤ → String → String → LevelPair → Type 0
MayChange s sender user p = (p.old ≡ p.new) ⊎ ((p.new ≤ℤ s) × ((user ≡ sender) ⊎ (p.old <ℤ s)))

-- The level that a content names for the user, or 0.
abbrev pub told : PowerLevelContent → String → ℤ
told c user = or_zero (lookup user c.users)

check_user_level-MayChange :
    (s : ℤ) (sender user : String) (p : LevelPair)
    → check_user_level s sender (user, p) ≡ ok tt
    → MayChange s sender user p
unfolding check_user_level
check_user_level-MayChange s sender user p h =
    ground (arith, eq_of_parts p.old p.new, eq_iff user sender)

MayChange-check_user_level :
    (s : ℤ) (sender user : String) (p : LevelPair)
    → MayChange s sender user p
    → check_user_level s sender (user, p) ≡ ok tt
unfolding check_user_level
MayChange-check_user_level s sender user p h = ground (arith, eq_iff user sender)

module _ (s : ℤ) (sender : String) (old new : PowerLevelContent) where
  at_user : String → String × LevelPair
  at_user user = (user, pair (told old user) (told new user))

  -- Let the named level of a user be the one that a content has under "users", or 0 where it has none,
  -- whatever its default level. The comparison of user levels accepts exactly if, for every user that
  -- the new content names, the named level is unchanged, or the new one is at most the sender's level
  -- and the user is the sender or the old one is below the sender's level.
  pub check_user_levels_iff : (check_user_levels s sender old new ≡ ok tt) ↔ (
      (user : String)
      → lookup user new.users ≢ none
      → MayChange s sender user (pair (told old user) (told new user)))
  unfolding check_user_levels user_level_checks at_user
  check_user_levels_iff =
      let f = check_user_level s sender in
      let P = λ (user : String). MayChange s sender user (pair (told old user) (told new user)) in
      (
        (λ h user named. elim (Option-cases (lookup user new.users)) [
          | inl absent ↦ absurd (named absent)
          | inr (v, e) ↦ check_user_level-MayChange s sender user _ (
              All-keys-lookup (λ k. f (at_user k) ≡ ok tt) user new.users e
                (All-map (λ x. f x ≡ ok tt) at_user (keys new.users)
                  (All-for_each f (map at_user (keys new.users)) h)))
        ]),
        (λ all. for_each-All f (map at_user (keys new.users)) (
            map-All (λ x. f x ≡ ok tt) at_user (keys new.users)
              (All-keys (λ k. f (at_user k) ≡ ok tt) new.users
                (λ k named. MayChange-check_user_level s sender k _ (all k named))))),
      )

-- If a change of user levels is accepted, it is still accepted with any user's entry taken out of
-- the new content, whatever level that user had.
pub removal_unchecked :
    (s : ℤ) (sender user : String) (old new : PowerLevelContent)
    → check_user_levels s sender old new ≡ ok tt
    → check_user_levels s sender old (record new { users = erase user new.users }) ≡ ok tt
removal_unchecked s sender user old new h =
    (check_user_levels_iff s sender old (record new { users = erase user new.users })).1 λ u named.
      elim (Bool-cases (user == u)) [
        | inl same ↦ absurd (named (rw (lookup-erase user u new.users, same)))
        | inr other ↦
            let kept : lookup u (erase user new.users) ≡ lookup u new.users =
              rw (lookup-erase user u new.users, other) in
            rw kept ((check_user_levels_iff s sender old new).0 h u (λ e. named (kept ∙ e)))
      ]
