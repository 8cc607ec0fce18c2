-- ===== src/Json.antt =====
-- JSON values, and what Go's `encoding/json` does with one as it decodes it into a Go value: the
-- standard library's rules that the contents in eventcontent.go go by.
use gomatrixserverlib.Prelude.{
  arith, refl, ◌≡◌, Bool-cases, inl, inr, ◌==◌, ne_of_false, ℕ, ◌+◌, Bool, true, false, ◌&&◌,
  Option, none, some, List, [], ◌∷◌, String, leb, nat_eq, if◌then◌else◌, Assoc, insert,
}
use gomatrixserverlib.Prelude.Int.{ℤ, leb_ℤ, min_int64, max_int64}
use Prim.Native.Char.{code}
use text.Mathlib.TextEquality.{Char-path}

-- A number is an integer literal, or one with a fraction or an exponent, with the integer that
-- `int64(f)` makes of its value (nothing where `strconv.ParseFloat` reports that it is too large).
mutual
  pub data Json : Type 0 where
    null : Json
    bool : Bool → Json
    int : ℤ → Json
    float : Option ℤ → Json
    str : String → Json
    arr : Items → Json
    obj : Members → Json

  pub data Items : Type 0 where
    nil : Items
    cons : Json → Items → Items

  pub data Members : Type 0 where
    end : Members
    member : String → Json → Members → Members

-- The folding of a key's character by encoding/json: ASCII capitals, the Kelvin sign and the long s.
unfoldable pub fold_code : ℕ → ℕ
fold_code c =
    if leb b'A' c && leb c b'Z'
    then c + 32
    else if nat_eq c 0x212a
    then b'k'
    else if nat_eq c 0x17f
    then b's'
    else c

-- A struct field of a (lower case) name takes the keys that fold to it.
unfoldable pub names : String → String → Bool
names String.[] String.[] = true
names String.[] (String.◌∷◌ d t) = false
names (String.◌∷◌ c s) String.[] = false
names (String.◌∷◌ c s) (String.◌∷◌ d t) = nat_eq (code c) (fold_code (code d)) && names s t

-- A decoder takes the value and what the target held; it gives what the target holds now, and
-- whether there was no type error. Decoding goes on after a type error.
abbrev pub Decoder {ℓ} : Type ℓ → Type ℓ
Decoder A = Json → A → A × Bool

unfoldable pub decode_string : Decoder String
decode_string null old = (old, true)
decode_string (str s) old = (s, true)
decode_string _ old = (old, false)

unfoldable pub decode_bool : Decoder Bool
decode_bool null old = (old, true)
decode_bool (bool b) old = (b, true)
decode_bool _ old = (old, false)

abbrev pub in_int64 : ℤ → Bool
in_int64 n = leb_ℤ min_int64 n && leb_ℤ n max_int64

unfoldable pub decode_int64 : Decoder ℤ
decode_int64 null old = (old, true)
decode_int64 (int n) old = if in_int64 n then (n, true) else (old, false)
decode_int64 _ old = (old, false)

-- A pointer: null clears it, and any other value is decoded into what it points to.
unfoldable pub decode_pointer {ℓ} : {A : Type ℓ} → A → Decoder A → Decoder (Option A)
decode_pointer zero_value d null old = (none, true)
decode_pointer zero_value d j none = let (a, fits) = d j zero_value in (some a, fits)
decode_pointer zero_value d j (some a) = let (a', fits) = d j a in (some a', fits)

-- The members in order, each into the fields that its key names.
unfoldable pub decode_members {ℓ} : {S : Type ℓ} → (String → Decoder S) → Members → S → S × Bool
decode_members field end s = (s, true)
decode_members field (member k v ms) s =
    let (s', fits) = field k v s in
    let (s'', rest) = decode_members field ms s' in (s'', fits && rest)

unfoldable pub decode_struct {ℓ} : {S : Type ℓ} → (String → Decoder S) → Decoder S
unfolding decode_members
decode_struct field null s = (s, true)
decode_struct field (obj ms) s = decode_members field ms s
decode_struct field _ s = (s, false)

-- A map is kept and gets new entries; an entry of the wrong type is stored as the zero value.
unfoldable pub decode_entries {ℓ} :
    {A : Type ℓ} → A → Decoder A → Members → Assoc A → Assoc A × Bool
decode_entries zero_value d end m = (m, true)
decode_entries zero_value d (member k v ms) m =
    let (a, fits) = d v zero_value in
    let (m', rest) = decode_entries zero_value d ms (insert k a m) in (m', fits && rest)

unfoldable pub decode_map {ℓ} : {A : Type ℓ} → A → Decoder A → Decoder (Assoc A)
unfolding decode_entries insert
decode_map zero_value d null m = ([], true)
decode_map zero_value d (obj ms) m = decode_entries zero_value d ms m
decode_map zero_value d _ m = (m, false)

unfoldable pub decode_items {ℓ} : {A : Type ℓ} → A → Decoder A → Items → List A × Bool
decode_items zero_value d nil = ([], true)
decode_items zero_value d (cons v vs) =
    let (a, fits) = d v zero_value in
    let (rest, all_fit) = decode_items zero_value d vs in (a ∷ rest, fits && all_fit)

unfoldable pub decode_slice {ℓ} : {A : Type ℓ} → A → Decoder A → Decoder (List A)
unfolding decode_items
decode_slice zero_value d null l = ([], true)
decode_slice zero_value d (arr vs) l = decode_items zero_value d vs
decode_slice zero_value d _ l = (l, false)

-- One field of a struct: decode into what it holds, and put the result back.
abbrev pub into {ℓ κ} : {A : Type ℓ} {S : Type κ} → Decoder A → Json → A → (A → S) → S × Bool
into d j old put = let (a, fits) = d j old in (put a, fits)

-- `json.Unmarshal(data, &target)`: data that are missing or no JSON leave the target alone.
abbrev pub unmarshal {ℓ} : {A : Type ℓ} → Decoder A → Option Json → A → A × Bool
unmarshal d none old = (old, false)
unmarshal d (some j) old = d j old

-- A key is taken by the field of one name at most.
pub names_inj : (s t k : String) → names s k ≡ true → names t k ≡ true → s ≡ t
unfolding names
names_inj String.[] String.[] k h g = refl
names_inj String.[] (String.◌∷◌ d t) String.[] h g = cc
names_inj String.[] (String.◌∷◌ d t) (String.◌∷◌ e k) h g = cc
names_inj (String.◌∷◌ c s) String.[] String.[] h g = cc
names_inj (String.◌∷◌ c s) String.[] (String.◌∷◌ e k) h g = cc
names_inj (String.◌∷◌ c s) (String.◌∷◌ d t) String.[] h g = cc
names_inj (String.◌∷◌ c s) (String.◌∷◌ d t) (String.◌∷◌ e k) h g =
    let same : code c ≡ code d = ground (arith, h, g) in
    let rest : s ≡ t = names_inj s t k (ground (arith, h)) (ground (arith, g)) in
    λ i. String.◌∷◌ (Char-path c d same i) (rest i)

pub names_only : (s t k : String) → (s == t) ≡ false → names s k ≡ true → names t k ≡ false
names_only s t k differ h = elim (Bool-cases (names t k)) [
  | inl g ↦ absurd (ne_of_false s t differ (names_inj s t k h g))
  | inr g ↦ g
]
