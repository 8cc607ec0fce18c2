-- ===== src/Tests/OrderTests.antt =====
-- Tests of the orders of stateresolutionv2.go.
use gomatrixserverlib.Prelude.{
  ℕ, ◌≡◌, refl, arith, none, some, List, [], ◌∷◌, ◌++◌, String, ◌==◌, All, any, lookup,
  if◌then◌else◌, Assoc, insert, erase, length, some_inj, subst, Bool-cases, inl, inr, ◌↔◌, ◌<◌,
}
use gomatrixserverlib.Prelude.Int.{pos, succ_ℤ, pred_ℤ}
use gomatrixserverlib.Prelude.Sort.{count, insert_sorted, sort_by}
use gomatrixserverlib.Result.{ok}
use gomatrixserverlib.Event.{Event, References, auth_event_ids, state_key_equals}
use gomatrixserverlib.ResolutionV2.Order.{ConflictedPowerLevel, power_level_less}
use gomatrixserverlib.ResolutionV2.SenderLevel.{wrap}
use gomatrixserverlib.ResolutionV2.Kahn.{
  kahns_algorithm, note_event, increment_all, increment, degree, decrement_all, decrement,
}
use gomatrixserverlib.ResolutionV2.Kahn.Complete.{kahns_algorithm-IsComplete}
use gomatrixserverlib.ResolutionV2.Kahn.Mentions.{AreDistinct}
use gomatrixserverlib.ResolutionV2.Kahn.Linked.{IsOrdered}
use gomatrixserverlib.ResolutionV2.Kahn.Ordered.{IsRanked, kahns_algorithm-IsOrdered}
use gomatrixserverlib.ResolutionV2.Mainline.{create_power_level_mainline}
use gomatrixserverlib.ResolutionV2.Mainline.Ancestors.{
  IsParent, Reaches, create_power_level_mainline-HoldsReached,
}
use gomatrixserverlib.Tests.Samples.{alice, in_version}
use mathlib.Core.List.{Memᴰ}
use mathlib.Core.List.Memᴰ

-- Two power levels events, the second of which has the first among its auth events.
abbrev first_levels : Event
first_levels = record (in_version "8" "m.room.power_levels" alice (some "") none) {
  event_id = "$1";
  references = References.v2 [] [];
}

abbrev second_levels : Event
second_levels = record (in_version "8" "m.room.power_levels" alice (some "") none) {
  event_id = "$2";
  references = References.v2 [] ("$1" ∷ []);
}

abbrev wrapped_id : ConflictedPowerLevel → String
wrapped_id x = x.event_id

abbrev wrapped_auth : ConflictedPowerLevel → List String
wrapped_auth x = auth_event_ids x.event

abbrev unsorted : List ConflictedPowerLevel
unsorted = wrap second_levels (pos 0) ∷ wrap first_levels (pos 0) ∷ []

-- Its sender has level 0.
abbrev HasLevelZero : ConflictedPowerLevel → Type 0
HasLevelZero x = x.power_level ≡ pos 0

kahns_algorithm-IsComplete_example :
    (result : List ConflictedPowerLevel) × (kahns_algorithm wrapped_id wrapped_auth power_level_less
        unsorted
      ≡ ok result)
    × ((i : String)
        → count (λ x. wrapped_id x == i) result
          ≡ (if any (λ x. wrapped_id x == i) unsorted then 1 else 0))
    × All HasLevelZero result
kahns_algorithm-IsComplete_example =
    kahns_algorithm-IsComplete wrapped_id wrapped_auth power_level_less HasLevelZero unsorted
      (refl, (refl, tt))

abbrev generation : String → ℕ
generation id = if id == "$2" then 1 else 0

distinct_ids : AreDistinct wrapped_id wrapped_auth power_level_less unsorted
distinct_ids = ((refl, tt), ((tt, tt)))

generations : All (IsRanked wrapped_id wrapped_auth power_level_less generation) unsorted
unfolding auth_event_ids
generations = ((omega arith, tt), (tt, tt))

kahns_algorithm-IsOrdered_example :
    (result : List ConflictedPowerLevel) × (kahns_algorithm wrapped_id wrapped_auth power_level_less
        unsorted
      ≡ ok result)
    × IsOrdered wrapped_id wrapped_auth power_level_less result
kahns_algorithm-IsOrdered_example =
    kahns_algorithm-IsOrdered wrapped_id wrapped_auth power_level_less generation unsorted
      distinct_ids generations

-- The events in their order.
in_order :
    kahns_algorithm wrapped_id wrapped_auth power_level_less unsorted
    ≡ ok (wrap first_levels (pos 0) ∷ wrap second_levels (pos 0) ∷ [])
unfolding kahns_algorithm note_event increment_all auth_event_ids lookup increment insert succ_ℤ
    degree insert_sorted decrement_all decrement pred_ℤ erase sort_by
in_order = refl

abbrev known_levels : Assoc Event
known_levels = ("$1", first_levels) ∷ []

abbrev references : Event → ℕ
references e = length (auth_event_ids e)

some_reference : (id : String) (ids : List String) → Memᴰ id ids → 0 < length ids
some_reference id [] m = absurd (Memᴰ.not-nil m)
some_reference id (i ∷ ids) m = omega arith

known-first : (id : String) (p : Event) → lookup id known_levels ≡ some p → first_levels ≡ p
unfolding lookup
known-first id p h = elim (Bool-cases ("$1" == id)) [
  | inl b ↦ some_inj (rw b at h)
  | inr b ↦ cc (rw b at h)
]

fewer : (e p : Event) → IsParent known_levels e p → references p < references e
unfolding auth_event_ids
fewer e p (id, m, at, is) =
    subst (λ x. references x < references e) (known-first id p at)
      (some_reference id (auth_event_ids e) m)

two_referenced : references second_levels < 2
unfolding auth_event_ids
two_referenced = omega arith

create_power_level_mainline-HoldsReached_example :
    (before : List Event) × (create_power_level_mainline 2 known_levels (some second_levels)
      ≡ ok (before ++ (second_levels ∷ [])))
    × ((x : Event) → Memᴰ x (before ++ (second_levels ∷ [])) ↔ Reaches known_levels second_levels x)
create_power_level_mainline-HoldsReached_example =
    create_power_level_mainline-HoldsReached known_levels references fewer 2 second_levels
      two_referenced

-- The older levels come first.
whole_mainline :
    create_power_level_mainline 2 known_levels (some second_levels)
    ≡ ok (first_levels ∷ second_levels ∷ [])
unfolding create_power_level_mainline auth_event_ids lookup state_key_equals
whole_mainline = refl
