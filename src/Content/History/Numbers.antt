-- ===== src/Content/History/Numbers.antt =====
-- The numbers of the history visibilities.
use gomatrixserverlib.Prelude.{ℕ, zero, suc, inl, inr, ◌⊎◌, ◌≤◌, ◌≡◌, refl, String, eq_iff, arith}
use gomatrixserverlib.Content.History.{
  world_readable, shared, invited, joined, value, numeric_value, history_visibility_from_int,
}

value-cases :
    (h : String)
    → (value h ≡ world_readable) ⊎ (value h ≡ shared) ⊎ (value h ≡ invited) ⊎ (value h ≡ joined)
unfolding value
value-cases h =
    ground (arith, eq_iff h world_readable, eq_iff h shared, eq_iff h invited, eq_iff h joined)

-- The visibility of the number of a text is the visibility that the text stands for.
pub history_visibility_from_int-numeric_value :
    (h : String) → history_visibility_from_int (numeric_value h) ≡ value h
unfolding history_visibility_from_int numeric_value
history_visibility_from_int-numeric_value h = elim (value-cases h) [
  | inl e ↦ rw e
  | inr (inl e) ↦ rw e
  | inr (inr (inl e)) ↦ rw e
  | inr (inr (inr e)) ↦ rw e
]

-- The number of the visibility of a number from 1 to 4 is the number.
pub numeric_value-history_visibility_from_int :
    (n : ℕ) → 1 ≤ n → n ≤ 4 → numeric_value (history_visibility_from_int n) ≡ n
unfolding history_visibility_from_int numeric_value value
numeric_value-history_visibility_from_int zero lo hi = absurd (omega arith)
numeric_value-history_visibility_from_int (suc zero) lo hi = refl
numeric_value-history_visibility_from_int (suc (suc zero)) lo hi = refl
numeric_value-history_visibility_from_int (suc (suc (suc zero))) lo hi = refl
numeric_value-history_visibility_from_int (suc (suc (suc (suc zero)))) lo hi = refl
numeric_value-history_visibility_from_int (suc (suc (suc (suc (suc n))))) lo hi =
    absurd (omega arith)
