-- ===== src/Prelude/Sort.antt =====
-- `sort.Sort` and `sort.SliceStable` by a Boolean `Less`: sorting by insertion, which keeps the order
-- of what the test leaves unordered. `sort.Sort` promises no order there.
use Prim.Native.Nat.{ℕ, suc, ◌+◌}
use mathlib.Core.Path.{◌≡◌, refl, ◌∙◌}
use mathlib.Core.Logic.{inl, inr}
use mathlib.Core.Bool.{Bool, true, false}
use mathlib.Core.List.{List, [], ◌∷◌, ◌++◌}
use native.Mathlib.Omega.{arith}
use gomatrixserverlib.Prelude.Tests.{if◌then◌else◌, Bool-cases}
use gomatrixserverlib.Prelude.Lists.{All, All-imp}

module _ {ℓ} {A : Type ℓ} where
  -- How many elements pass a test.
  abbrev pub count : (A → Bool) → List A → ℕ
  count p [] = 0
  count p (x ∷ xs) = if p x then suc (count p xs) else count p xs

  pub count-append : (p : A → Bool) (xs ys : List A) → count p (xs ++ ys) ≡ count p xs + count p ys
  count-append p [] ys = omega arith
  count-append p (x ∷ xs) ys = ground (arith, count-append p xs ys)

  unfoldable pub insert_sorted : (A → A → Bool) → A → List A → List A
  insert_sorted less x [] = x ∷ []
  insert_sorted less x (y ∷ ys) =
      let rest = insert_sorted less x ys in if less y x then y ∷ rest else x ∷ (y ∷ ys)

  unfoldable pub sort_by : (A → A → Bool) → List A → List A
  sort_by less [] = []
  sort_by less (x ∷ xs) = insert_sorted less x (sort_by less xs)

module _ {ℓ} {A : Type ℓ} (less : A → A → Bool) where
  insert_sorted-cons :
      (x : A) (xs : List A) → (y : A) × (ys : List A) × (insert_sorted less x xs ≡ y ∷ ys)
  unfolding insert_sorted
  insert_sorted-cons x [] = (x, [], refl)
  insert_sorted-cons x (y ∷ ys) = elim (Bool-cases (less y x)) [
    | inl b ↦ rw b (y, insert_sorted less x ys, refl)
    | inr b ↦ rw b (x, y ∷ ys, refl)
  ]

  pub sort_by-cons :
      (x : A) (xs : List A) → (y : A) × (ys : List A) × (sort_by less (x ∷ xs) ≡ y ∷ ys)
  unfolding sort_by
  sort_by-cons x xs = insert_sorted-cons x (sort_by less xs)

module _ {ℓ κ} {A : Type ℓ} (P : A → Type κ) (less : A → A → Bool) where
  pub All-insert_sorted : (x : A) (xs : List A) → P x → All P xs → All P (insert_sorted less x xs)
  unfolding insert_sorted
  All-insert_sorted x [] p h = (p, tt)
  All-insert_sorted x (y ∷ ys) p h = elim (Bool-cases (less y x)) [
    | inl b ↦ rw b (h.0, All-insert_sorted x ys p h.1)
    | inr b ↦ rw b (p, h)
  ]

  -- What holds of every element holds of every element of the sorted list.
  pub All-sort_by : (xs : List A) → All P xs → All P (sort_by less xs)
  unfolding sort_by
  All-sort_by [] h = tt
  All-sort_by (x ∷ xs) h = All-insert_sorted x (sort_by less xs) h.0 (All-sort_by xs h.1)

module _ {ℓ} {A : Type ℓ} (less : A → A → Bool) where
  -- No element is less than one before it.
  abbrev pub IsSorted : List A → Type 0
  IsSorted [] = Unit
  IsSorted (x ∷ xs) = All (λ y. less y x ≡ false) xs × IsSorted xs

  pub count-insert_sorted :
      (p : A → Bool) (x : A) (xs : List A) → count p (insert_sorted less x xs) ≡ count p (x ∷ xs)
  unfolding insert_sorted
  count-insert_sorted p x [] = refl
  count-insert_sorted p x (y ∷ ys) = ground (arith, count-insert_sorted p x ys)

  -- The sorted list holds the same elements, each as often.
  pub count-sort_by : (p : A → Bool) (xs : List A) → count p (sort_by less xs) ≡ count p xs
  unfolding sort_by
  count-sort_by p [] = refl
  count-sort_by p (x ∷ xs) =
      count-insert_sorted p x (sort_by less xs) ∙ ground (arith, count-sort_by p xs)

  module _ (irrefl : (x : A) → less x x ≡ false)
      (trans : (x y z : A) → less x y ≡ true → less y z ≡ true → less x z ≡ true)
      (below : (x y z : A) → less y x ≡ false → less z y ≡ false → less z x ≡ false) where
    asym : (x y : A) → less x y ≡ true → less y x ≡ false
    asym x y h = elim (Bool-cases (less y x)) [ inl b ↦ cc (irrefl x, trans x y x h b) | inr b ↦ b ]

    insert_sorted-IsSorted :
        (x : A) (xs : List A) → IsSorted xs → IsSorted (insert_sorted less x xs)
    unfolding insert_sorted
    insert_sorted-IsSorted x [] h = (tt, tt)
    insert_sorted-IsSorted x (y ∷ ys) h = elim (Bool-cases (less y x)) [
      | inl b ↦ rw b (
        All-insert_sorted (λ z. less z y ≡ false) less x ys (asym y x b) h.0,
        insert_sorted-IsSorted x ys h.1,
      )
      | inr b ↦ rw b (
        (
          b,
          All-imp (λ z. less z y ≡ false) (λ z. less z x ≡ false) (λ z k. below x y z b k) ys h.0,
        ),
        h,
      )
    ]

    -- Sorting by a strict weak order gives a list in which no element is less than one before it.
    pub sort_by-IsSorted : (xs : List A) → IsSorted (sort_by less xs)
    unfolding sort_by
    sort_by-IsSorted [] = tt
    sort_by-IsSorted (x ∷ xs) = insert_sorted-IsSorted x (sort_by less xs) (sort_by-IsSorted xs)
