-- ===== src/Content/PowerLevels/Level.antt =====
-- `levelJSONValue` of eventcontent.go: a level as an integer, a text that holds one, or a number
-- with a fraction. `strings.TrimSpace`, `strconv.ParseInt` and the conversion of a float to an
-- `int64` are Go's (the conversion as amd64 does it: what does not fit becomes the least integer).
use gomatrixserverlib.Prelude.{
  ℕ, ◌+◌, ◌-◌, ◌*◌, ◌^◌, Bool, true, false, ◌&&◌, ◌||◌, Option, none, some, List, [], ◌∷◌, leb, ltb,
  nat_eq, if◌then◌else◌,
}
use gomatrixserverlib.Prelude.Int.{ℤ, pos, negsuc, pos_part, neg_part, min_int64}
use gomatrixserverlib.Prelude.Text.{codes}
use gomatrixserverlib.Json.{Json, int, float, str, Decoder, in_int64}

pub record LevelJsonValue : Type 0 where
  pub exists : Bool
  pub value : ℤ

abbrev pub no_value : LevelJsonValue
no_value = record { exists = false; value = pos 0 }

-- unicode.IsSpace
unfoldable pub is_space : ℕ → Bool
is_space c =
    leb 9 c && leb c 13
    || nat_eq c 32
    || nat_eq c 0x85
    || nat_eq c 0xa0
    || nat_eq c 0x1680
    || leb 0x2000 c && leb c 0x200a
    || nat_eq c 0x2028
    || nat_eq c 0x2029
    || nat_eq c 0x202f
    || nat_eq c 0x205f
    || nat_eq c 0x3000

trim_left : List ℕ → List ℕ
unfolding is_space
trim_left [] = []
trim_left (c ∷ s) = let rest = trim_left s in if is_space c then rest else c ∷ s

-- A trailing space goes if only spaces follow it.
trim_right : List ℕ → List ℕ
unfolding is_space
trim_right [] = []
trim_right (c ∷ s) = elim (trim_right s) [
  | [] ↦ (if is_space c then [] else c ∷ [])
  | d ∷ t ↦ c ∷ d ∷ t
]

unfoldable pub trim_space : List ℕ → List ℕ
unfolding trim_left trim_right
trim_space s = trim_right (trim_left s)

parse_digits : ℕ → List ℕ → Option ℕ
parse_digits n [] = some n
parse_digits n (c ∷ s) =
    let rest = parse_digits (n * 10 + (c - b'0')) s in
    if leb b'0' c && leb c b'9' then rest else none

unsigned : List ℕ → Option ℕ
unfolding parse_digits
unsigned [] = none
unsigned (c ∷ s) = parse_digits 0 (c ∷ s)

abbrev positive : Option ℕ → Option ℤ
positive none = none
positive (some n) = if ltb n (2 ^ 63) then some (pos n) else none

abbrev negative : Option ℕ → Option ℤ
negative none = none
negative (some n) =
    if nat_eq n 0 then some (pos 0) else if leb n (2 ^ 63) then some (negsuc (n - 1)) else none

-- strconv.ParseInt(s, 10, 64)
unfoldable pub parse_int : List ℕ → Option ℤ
unfolding unsigned
parse_int [] = none
parse_int (c ∷ s) =
    if nat_eq c b'-'
    then negative (unsigned s)
    else if nat_eq c b'+'
    then positive (unsigned s)
    else positive (unsigned (c ∷ s))

-- An integer literal that is too large for a float makes `strconv.ParseFloat` fail.
abbrev in_float64 : ℤ → Bool
in_float64 n = ltb (pos_part n + neg_part n) (2 ^ 1024 - 2 ^ 970)

-- levelJSONValue.UnmarshalJSON; a null, a bool, an array and an object are errors.
unfoldable pub level_value : Json → Option ℤ
unfolding trim_space parse_int
level_value (int n) = if in_int64 n then some n else if in_float64 n then some min_int64 else none
level_value (float f) = f
level_value (str s) = parse_int (trim_space (codes s))
level_value _ = none

unfoldable pub decode_level : Decoder LevelJsonValue
unfolding level_value
decode_level j old = elim (level_value j) [
  | none ↦ (old, false)
  | some n ↦ (record { exists = true; value = n }, true)
]

unfoldable pub assign_if_exists : LevelJsonValue → ℤ → ℤ
assign_if_exists v to = if v.exists then v.value else to
