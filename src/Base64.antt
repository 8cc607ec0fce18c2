-- ===== src/Base64.antt =====
-- base64.go: `Base64Bytes`. The alphabets and the unpadded format are those of Go's
-- `encoding/base64`.
pub mod RoundTrip
use gomatrixserverlib.Prelude.{
  ℕ, ◌+◌, ◌-◌, ◌*◌, ◌/◌, ◌%◌, ◌&&◌, ◌||◌, Option, none, some, List, [], ◌∷◌, leb, ltb, nat_eq,
  if◌then◌else◌, any,
}
use gomatrixserverlib.Result.{Result, ok, err, bad_base64}

-- The 64 characters of `RawStdEncoding`.
unfoldable pub encode_std : ℕ → ℕ
encode_std v =
    if ltb v 26
    then v + b'A'
    else if ltb v 52
    then v - 26 + b'a'
    else if ltb v 62
    then v - 52 + b'0'
    else if nat_eq v 62
    then b'+'
    else b'/'

-- The value of a character under an alphabet whose last two characters are given.
unfoldable pub decode_char : ℕ → ℕ → ℕ → Option ℕ
decode_char c62 c63 c =
    if leb b'A' c && leb c b'Z'
    then some (c - b'A')
    else if leb b'a' c && leb c b'z'
    then some (c - b'a' + 26)
    else if leb b'0' c && leb c b'9'
    then some (c - b'0' + 52)
    else if nat_eq c c62
    then some 62
    else if nat_eq c c63
    then some 63
    else none

-- Base64Bytes.Encode
unfoldable pub encode : List ℕ → List ℕ
encode [] = []
encode (x ∷ []) = encode_std (x / 4) ∷ encode_std (x % 4 * 16) ∷ []
encode (x ∷ y ∷ []) =
    encode_std (x / 4) ∷ encode_std (x % 4 * 16 + y / 16) ∷ encode_std (y % 16 * 4) ∷ []
encode (x ∷ y ∷ z ∷ rest) =
    encode_std (x / 4)
    ∷ encode_std (x % 4 * 16 + y / 16)
    ∷ encode_std (y % 16 * 4 + z / 64)
    ∷ encode_std (z % 64)
    ∷ encode rest

-- The values of the characters; line breaks are skipped.
unfoldable pub decode_values : ℕ → ℕ → List ℕ → Option (List ℕ)
unfolding decode_char
decode_values c62 c63 [] = some []
decode_values c62 c63 (c ∷ s) =
    let rest = decode_values c62 c63 s in
    if nat_eq c 10 || nat_eq c 13 then rest else elim (decode_char c62 c63 c) [
      | none ↦ none
      | some v ↦ elim rest [ none ↦ none | some vs ↦ some (v ∷ vs) ]
    ]

-- Four values make three bytes; what the last value holds beyond a byte is dropped.
unfoldable pub pack_values : List ℕ → Option (List ℕ)
pack_values [] = some []
pack_values (a ∷ []) = none
pack_values (a ∷ b ∷ []) = some ((a * 4 + b / 16) ∷ [])
pack_values (a ∷ b ∷ c ∷ []) = some ((a * 4 + b / 16) ∷ (b % 16 * 16 + c / 4) ∷ [])
pack_values (a ∷ b ∷ c ∷ d ∷ rest) = elim (pack_values rest) [
  | none ↦ none
  | some bs ↦ some ((a * 4 + b / 16) ∷ (b % 16 * 16 + c / 4) ∷ (c % 4 * 64 + d) ∷ bs)
]

decode_with : ℕ → ℕ → List ℕ → Result (List ℕ)
decode_with c62 c63 s = elim (decode_values c62 c63 s) [
  | none ↦ err bad_base64
  | some vs ↦ elim (pack_values vs) [ none ↦ err bad_base64 | some bs ↦ ok bs ]
]

-- Base64Bytes.Decode: the URL alphabet if the text has one of its characters, else the standard one.
unfoldable pub decode : List ℕ → Result (List ℕ)
unfolding decode_with decode_values pack_values
decode s =
    if any (λ c. nat_eq c b'-' || nat_eq c b'_') s
    then decode_with b'-' b'_' s
    else decode_with b'+' b'/' s
