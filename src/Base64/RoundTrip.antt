-- ===== src/Base64/RoundTrip.antt =====
-- Base64Bytes.Encode of base64.go followed by Base64Bytes.Decode.
use gomatrixserverlib.Prelude.{
  ℕ, ◌+◌, ◌*◌, ◌/◌, ◌%◌, ◌<◌, ◌≡◌, refl, false, ◌||◌, some, List, [], ◌∷◌, map, arith, nat_eq, any,
  All,
}
use gomatrixserverlib.Result.{ok}
use gomatrixserverlib.Base64.{
  encode_std, decode_char, encode, decode_values, pack_values, decode, decode_with,
}

-- The values of the characters of an encoded text.
sextets : List ℕ → List ℕ
sextets [] = []
sextets (x ∷ []) = x / 4 ∷ x % 4 * 16 ∷ []
sextets (x ∷ y ∷ []) = x / 4 ∷ (x % 4 * 16 + y / 16) ∷ y % 16 * 4 ∷ []
sextets (x ∷ y ∷ z ∷ rest) =
    x / 4 ∷ (x % 4 * 16 + y / 16) ∷ (y % 16 * 4 + z / 64) ∷ z % 64 ∷ sextets rest

map-sextets : (bs : List ℕ) → encode bs ≡ map encode_std (sextets bs)
unfolding encode sextets
map-sextets [] = refl
map-sextets (x ∷ []) = refl
map-sextets (x ∷ y ∷ []) = refl
map-sextets (x ∷ y ∷ z ∷ rest) = rw (map-sextets rest)

sextets-lt : (bs : List ℕ) → All (λ b. b < 256) bs → All (λ v. v < 64) (sextets bs)
unfolding sextets
sextets-lt [] h = tt
sextets-lt (x ∷ []) h = omega arith
sextets-lt (x ∷ y ∷ []) h = omega arith
sextets-lt (x ∷ y ∷ z ∷ rest) h =
    (omega arith, (omega arith, (omega arith, (omega arith, sextets-lt rest h.1.1.1))))

pack_values-sextets : (bs : List ℕ) → All (λ b. b < 256) bs → pack_values (sextets bs) ≡ some bs
unfolding sextets pack_values
pack_values-sextets [] h = refl
pack_values-sextets (x ∷ []) h = ground arith
pack_values-sextets (x ∷ y ∷ []) h = ground arith
pack_values-sextets (x ∷ y ∷ z ∷ rest) h = rw (pack_values-sextets rest h.1.1.1) (ground arith)

-- A character of the alphabet stands for its value, and is no line break and no URL character.
decode_char-encode_std : (v : ℕ) → v < 64 → decode_char b'+' b'/' (encode_std v) ≡ some v
unfolding decode_char encode_std
decode_char-encode_std v h = ground arith

no_break : (v : ℕ) → v < 64 → (nat_eq (encode_std v) 10 || nat_eq (encode_std v) 13) ≡ false
unfolding encode_std
no_break v h = ground arith

no_url : (v : ℕ) → v < 64 → (nat_eq (encode_std v) b'-' || nat_eq (encode_std v) b'_') ≡ false
unfolding encode_std
no_url v h = ground arith

decode_values-map :
    (vs : List ℕ) → All (λ v. v < 64) vs → decode_values b'+' b'/' (map encode_std vs) ≡ some vs
unfolding decode_values
decode_values-map [] h = refl
decode_values-map (v ∷ vs) h =
    rw (no_break v h.0, decode_char-encode_std v h.0, decode_values-map vs h.1)

any-url-map :
    (vs : List ℕ)
    → All (λ v. v < 64) vs
    → any (λ c. nat_eq c b'-' || nat_eq c b'_') (map encode_std vs) ≡ false
any-url-map [] h = refl
any-url-map (v ∷ vs) h = rw (no_url v h.0) (any-url-map vs h.1)

-- Decoding the encoding of any list of bytes gives the list back.
pub decode-encode : (bs : List ℕ) → All (λ b. b < 256) bs → decode (encode bs) ≡ ok bs
unfolding decode
decode-encode bs h =
    let small = sextets-lt bs h in
    rw (
      map-sextets bs,
      any-url-map (sextets bs) small,
      decode_values-map (sextets bs) small,
      pack_values-sextets bs h,
      decode_with,
    )
