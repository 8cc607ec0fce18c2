-- ===== src/Auth/Levels/EventBounds.antt =====
-- checkEventLevels of eventauth.go against the levels that a sender reaches.
use gomatrixserverlib.Prelude.{
  keys, lookup, All, All-append, All-append_left, All-append_right, All-imp, All-keys-lookup,
  All-map, All-of_forall, Assoc, Bool-cases, Option-cases, String, false, inl, inr, map, map-All,
  none, ◌==◌, ◌↔◌, ◌≡◌, ◌⊎◌, arith,
}
use gomatrixserverlib.Prelude.Int.{ℤ, ◌≤ℤ◌, eq_of_parts}
use gomatrixserverlib.Result.{All-for_each, for_each-All, ok}
use gomatrixserverlib.Auth.Levels.{
  pair, check_event_levels, event_level_checks, LevelPair, check_event_level,
}
use gomatrixserverlib.Content.PowerLevels.{PowerLevelContent, event_level}

-- A change of a level from and to values that the sender reaches.
abbrev pub IsBounded : ℤ → LevelPair → Type 0
IsBounded s p = (p.old ≡ p.new) ⊎ ((p.new ≤ℤ s) × (p.old ≤ℤ s))

check_event_level-IsBounded :
    (s : ℤ) (p : LevelPair) → check_event_level s p ≡ ok tt → IsBounded s p
unfolding check_event_level
check_event_level-IsBounded s p h = ground (arith, eq_of_parts p.old p.new)

IsBounded-check_event_level :
    (s : ℤ) (p : LevelPair) → IsBounded s p → check_event_level s p ≡ ok tt
unfolding check_event_level
IsBounded-check_event_level s p h = ground arith

-- The level for an event of the type that is no state event, before and after.
abbrev pub at_type : PowerLevelContent → PowerLevelContent → String → LevelPair
at_type old new t = pair (event_level old t false) (event_level new t false)

-- What a sender of level `s` may change of the levels of events.
pub record EventLevelsAllowed (s : ℤ) (old : PowerLevelContent) (new : PowerLevelContent)
    : Type 0 where
  pub ban : IsBounded s (pair old.ban new.ban)
  pub invite : IsBounded s (pair old.invite new.invite)
  pub kick : IsBounded s (pair old.kick new.kick)
  pub redact : IsBounded s (pair old.redact new.redact)
  pub state_default : IsBounded s (pair old.state_default new.state_default)
  pub events_default : IsBounded s (pair old.events_default new.events_default)
  pub events : (t : String) → IsBounded s (at_type old new t)

module _ (s : ℤ) (old new : PowerLevelContent) where
  -- A type that neither content names has the default level in both, which is checked by itself.
  untold_type :
      (t : String)
      → lookup t old.events ≡ none
      → lookup t new.events ≡ none
      → IsBounded s (pair old.invite new.invite)
      → IsBounded s (pair old.events_default new.events_default)
      → IsBounded s (at_type old new t)
  unfolding event_level
  untold_type t a b invite default = elim (Bool-cases (t == "m.room.third_party_invite")) [
    | inl e ↦ rw e invite
    | inr e ↦ rw (e, a, b) default
  ]

  checks-EventLevelsAllowed :
      All (IsBounded s) (event_level_checks old new) → EventLevelsAllowed s old new
  unfolding event_level_checks
  checks-EventLevelsAllowed h =
      let rest = h.1.1.1.1.1.1 in
      let in_new =
        All-map (IsBounded s) (at_type old new) (keys new.events)
          (All-append_left (IsBounded s) (map (at_type old new) (keys new.events)) _ rest) in
      let in_old =
        All-map (IsBounded s) (at_type old new) (keys old.events)
          (All-append_right (IsBounded s) (map (at_type old new) (keys new.events)) _ rest) in
      record {
        ban = h.0;
        invite = h.1.0;
        kick = h.1.1.0;
        redact = h.1.1.1.0;
        state_default = h.1.1.1.1.0;
        events_default = h.1.1.1.1.1.0;
        events = λ t. elim (Option-cases (lookup t new.events)) [
          | inr (v, e) ↦
              All-keys-lookup (λ k. IsBounded s (at_type old new k)) t new.events e in_new
          | inl absent_new ↦ elim (Option-cases (lookup t old.events)) [
            | inr (v, e) ↦
                All-keys-lookup (λ k. IsBounded s (at_type old new k)) t old.events e in_old
            | inl absent_old ↦ untold_type t absent_old absent_new h.1.0 h.1.1.1.1.1.0
          ]
        ];
      }

  EventLevelsAllowed-checks :
      EventLevelsAllowed s old new → All (IsBounded s) (event_level_checks old new)
  unfolding event_level_checks
  EventLevelsAllowed-checks v =
      let at = λ (m : Assoc ℤ).
        map-All (IsBounded s) (at_type old new) (keys m)
          (All-of_forall (λ t. IsBounded s (at_type old new t)) v.events (keys m)) in
      let by_type =
        All-append (IsBounded s) (map (at_type old new) (keys new.events)) _ (at new.events)
          (at old.events) in
      (v.ban, (v.invite, (v.kick, (v.redact, (v.state_default, (v.events_default, by_type))))))

  -- The comparison of event levels accepts exactly if each of the six named levels, and for every event
  -- type the level of those of its events that are no state events, is unchanged or has its old and its
  -- new value at most the sender's level.
  pub check_event_levels_iff : (check_event_levels s old new ≡ ok tt) ↔ EventLevelsAllowed s old new
  unfolding check_event_levels
  check_event_levels_iff =
      let f = check_event_level s in
      let l = event_level_checks old new in
      (
        (λ h.
            checks-EventLevelsAllowed
              (All-imp _ _ (check_event_level-IsBounded s) l (All-for_each f l h))),
        (λ v.
            for_each-All f l
              (All-imp _ _ (IsBounded-check_event_level s) l (EventLevelsAllowed-checks v))),
      )
