-- ===== src/Prelude/Maps.antt =====
-- A Go map with string keys as an association list, in the order in which it is ranged over.
use Prim.Native.String.{String}
use mathlib.Core.Path.{◌≡◌, refl, subst}
use mathlib.Core.Logic.{◌≢◌, inl, inr}
use mathlib.Core.Bool.{false}
use mathlib.Core.Option.{Option, none, some}
use mathlib.Core.List.{List, [], ◌∷◌}
use native.Mathlib.Omega.{arith}
use text.Mathlib.Text.{◌==◌}
use text.Mathlib.TextEquality.{eq_iff}
use text.Mathlib.TextPositions.{eq_refl}
use gomatrixserverlib.Prelude.Tests.{if◌then◌else◌, Bool-cases}
use gomatrixserverlib.Prelude.Lists.{All}

abbrev pub Assoc {ℓ} : Type ℓ → Type ℓ
Assoc V = List (String × V)

module _ {ℓ} {V : Type ℓ} where
  -- `v, ok := m[key]`
  unfoldable pub lookup : String → Assoc V → Option V
  lookup key [] = none
  lookup key ((name, found) ∷ rest) = if name == key then some found else lookup key rest

  -- `m[key] = value`
  unfoldable pub insert : String → V → Assoc V → Assoc V
  insert key value [] = (key, value) ∷ []
  insert key value ((name, found) ∷ rest) =
      if name == key then (key, value) ∷ rest else (name, found) ∷ insert key value rest

  -- `delete(m, key)`
  unfoldable pub erase : String → Assoc V → Assoc V
  erase key [] = []
  erase key ((name, found) ∷ m) =
      let rest = erase key m in if name == key then rest else (name, found) ∷ rest

  pub lookup-insert :
      (key other : String) (value : V) (m : Assoc V)
      → lookup other (insert key value m) ≡ (if key == other then some value else lookup other m)
  unfolding lookup insert
  lookup-insert key other value [] = refl
  lookup-insert key other value ((name, found) ∷ m) =
      let rest = lookup-insert key other value m in
      ground (arith, rest, eq_iff key other, eq_iff name key, eq_iff name other)

  pub lookup-erase :
      (key other : String) (m : Assoc V)
      → lookup other (erase key m) ≡ (if key == other then none else lookup other m)
  unfolding lookup erase
  lookup-erase key other [] = ground arith
  lookup-erase key other ((name, found) ∷ m) =
      let rest = lookup-erase key other m in
      ground (arith, rest, eq_iff key other, eq_iff name key, eq_iff name other)

  -- `for k := range m`
  abbrev pub keys : Assoc V → List String
  keys [] = []
  keys ((k, v) ∷ m) = k ∷ keys m

  -- `for _, v := range m`
  abbrev pub values : Assoc V → List V
  values [] = []
  values ((k, v) ∷ m) = v ∷ values m

module _ {ℓ κ} {V : Type ℓ} (P : String → Type κ) where
  -- What holds of every key holds of a key that is looked up.
  pub All-keys-lookup :
      (k : String) (m : Assoc V) {v : V} → lookup k m ≡ some v → All P (keys m) → P k
  unfolding lookup
  All-keys-lookup k [] h all = cc
  All-keys-lookup k ((j, w) ∷ m) h all = elim (Bool-cases (j == k)) [
    | inl same ↦ subst P ((eq_iff j k).0 same) all.0
    | inr other ↦ All-keys-lookup k m (rw other at h) all.1
  ]

  -- A property of the keys that are there.
  pub All-keys : (m : Assoc V) → ((k : String) → (lookup k m ≢ none) → P k) → All P (keys m)
  unfolding lookup
  All-keys [] f = tt
  All-keys ((j, w) ∷ m) f = (
    f j (rw (eq_refl j) (λ e. cc)),
    All-keys m λ k h.
        f k (elim (Bool-cases (j == k)) [ inl same ↦ rw same (λ e. cc) | inr other ↦ rw other h ]),
  )

pub eq_false : (s t : String) → s ≢ t → (s == t) ≡ false
eq_false s t h = elim (Bool-cases (s == t)) [ inl e ↦ absurd (h ((eq_iff s t).0 e)) | inr e ↦ e ]

pub ne_of_false : (s t : String) → (s == t) ≡ false → s ≢ t
ne_of_false s t h e = ground (arith, eq_iff s t)
