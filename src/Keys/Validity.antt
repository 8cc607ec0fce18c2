-- ===== src/Keys/Validity.antt =====
-- keyring.go: for which timestamps a key was valid.
use gomatrixserverlib.Prelude.{
  ℕ, if◌then◌else◌, ◌≡◌, ◌≤◌, ◌<◌, ◌^◌, arith, Bool, true, false, nat_eq, ltb, not,
}
use gomatrixserverlib.Prelude.Int.{ℤ, plus_ℤ}
use gomatrixserverlib.Keys.{PublicKeyLookupResult, was_valid_at, time, after, seven_days}

-- Of two timestamps that do not wrap around, the lower one is not after an instant that the higher
-- one is not after.
limit_kept :
    (t : ℤ) (earlier later : ℕ)
    → earlier ≤ later
    → later < 2 ^ 63
    → not (after (time later) t) ≡ true
    → not (after (time earlier) t) ≡ true
limit_kept t earlier later h small k = ground (arith, h, small, k)

chosen :
    (expired strict invalid p q r s : Bool)
    → (p ≡ true → r ≡ true)
    → (q ≡ true → s ≡ true)
    → (if expired then p else if strict then (if invalid then false else q) else true) ≡ true
    → (if expired then r else if strict then (if invalid then false else s) else true) ≡ true
chosen expired strict invalid p q r s f g h = ground (arith, f, g, h)

-- A key that was valid at a timestamp below 2^63 was valid at each lower one, by the same clock and
-- the same strictness.
pub was_valid_at-earlier :
    (r : PublicKeyLookupResult) (now : ℤ) (earlier later : ℕ) (strict_validity_checking : Bool)
    → earlier ≤ later
    → later < 2 ^ 63
    → was_valid_at r now later strict_validity_checking ≡ true
    → was_valid_at r now earlier strict_validity_checking ≡ true
unfolding was_valid_at
was_valid_at-earlier r now earlier later strict h small =
    let future = plus_ℤ now seven_days in
    let until = time r.valid_until_ts in
    let limit = if after until future then future else until in
    chosen (not (nat_eq r.expired_ts 0)) strict (nat_eq r.valid_until_ts 0) (ltb later r.expired_ts)
      (not (after (time later) limit)) (ltb earlier r.expired_ts) (not (after (time earlier) limit))
      (λ k. ground (arith, h, k)) (limit_kept limit earlier later h small)
