-- ===== src/Prelude/Entries.antt =====
-- The entries of an association list: each key once, and what holds of every value.
use Prim.Native.Nat.{suc, ◌≤◌, ◌<◌}
use Prim.Native.String.{String}
use mathlib.Core.Path.{◌≡◌, refl, ◌∙◌, subst}
use mathlib.Core.Logic.{inl, inr}
use mathlib.Core.Option.{Option, none, some}
use mathlib.Core.List.{[], ◌∷◌}
use native.Mathlib.Omega.{arith}
use text.Mathlib.Text.{◌==◌}
use text.Mathlib.TextEquality.{eq_iff}
use gomatrixserverlib.Prelude.Tests.{Bool-cases, some_inj}
use gomatrixserverlib.Prelude.Lists.{All, length}
use gomatrixserverlib.Prelude.Maps.{
  Assoc, lookup, insert, erase, values, lookup-insert, lookup-erase,
}

abbrev pub IsThere {ℓ} : {V : Type ℓ} → Option V → Type 0
IsThere none = ⊥
IsThere (some v) = Unit

module _ {ℓ} {V : Type ℓ} where
  -- Each key has one entry.
  abbrev pub HasOneEach : Assoc V → Type ℓ
  HasOneEach [] = Unit
  HasOneEach ((k, v) ∷ m) = (lookup k m ≡ none) × HasOneEach m

  pub insert-HasOneEach :
      (key : String) (value : V) (m : Assoc V) → HasOneEach m → HasOneEach (insert key value m)
  unfolding insert lookup
  insert-HasOneEach key value [] h = (refl, tt)
  insert-HasOneEach key value ((k, v) ∷ m) h = elim (Bool-cases (k == key)) [
    | inl b ↦ rw b (subst (λ x. lookup x m ≡ none) ((eq_iff k key).0 b) h.0, h.1)
    | inr b ↦ rw b (
      lookup-insert key k value m ∙ ground (arith, h.0, b, eq_iff k key, eq_iff key k),
      insert-HasOneEach key value m h.1,
    )
  ]

  pub erase-HasOneEach : (key : String) (m : Assoc V) → HasOneEach m → HasOneEach (erase key m)
  unfolding erase lookup
  erase-HasOneEach key [] h = tt
  erase-HasOneEach key ((k, v) ∷ m) h = elim (Bool-cases (k == key)) [
    | inl b ↦ rw b (erase-HasOneEach key m h.1)
    | inr b ↦ rw b (lookup-erase key k m ∙ ground (arith, h.0), erase-HasOneEach key m h.1)
  ]

  pub length-insert :
      (key : String) (value : V) (m : Assoc V) → length (insert key value m) ≤ suc (length m)
  unfolding insert
  length-insert key value [] = omega arith
  length-insert key value ((k, v) ∷ m) = ground (arith, length-insert key value m)

  pub length-erase : (key : String) (m : Assoc V) → length (erase key m) ≤ length m
  unfolding erase
  length-erase key [] = omega arith
  length-erase key ((k, v) ∷ m) = ground (arith, length-erase key m)

  -- Erasing a key that is there makes the list shorter.
  pub length-erase-lt :
      (key : String) (m : Assoc V) (v : V) → lookup key m ≡ some v → length (erase key m) < length m
  unfolding erase lookup
  length-erase-lt key [] v h = cc
  length-erase-lt key ((k, w) ∷ m) v h = elim (Bool-cases (k == key)) [
    | inl b ↦ rw b (omega (arith, length-erase key m))
    | inr b ↦ rw b (omega (arith, length-erase-lt key m v (rw b at h)))
  ]

module _ {ℓ κ} {V : Type ℓ} (P : V → Type κ) where
  pub All-values-insert :
      (key : String) (value : V) (m : Assoc V)
      → P value
      → All P (values m)
      → All P (values (insert key value m))
  unfolding insert
  All-values-insert key value [] p h = (p, tt)
  All-values-insert key value ((k, v) ∷ m) p h = elim (Bool-cases (k == key)) [
    | inl b ↦ rw b (p, h.1)
    | inr b ↦ rw b (h.0, All-values-insert key value m p h.1)
  ]

  pub All-values-erase :
      (key : String) (m : Assoc V) → All P (values m) → All P (values (erase key m))
  unfolding erase
  All-values-erase key [] h = tt
  All-values-erase key ((k, v) ∷ m) h = elim (Bool-cases (k == key)) [
    | inl b ↦ rw b (All-values-erase key m h.1)
    | inr b ↦ rw b (h.0, All-values-erase key m h.1)
  ]

  pub All-values-lookup :
      (key : String) (m : Assoc V) {v : V} → All P (values m) → lookup key m ≡ some v → P v
  unfolding lookup
  All-values-lookup key [] h found = cc
  All-values-lookup key ((k, w) ∷ m) h found = elim (Bool-cases (k == key)) [
    | inl b ↦ subst P (some_inj (rw b at found)) h.0
    | inr b ↦ All-values-lookup key m h.1 (rw b at found)
  ]
