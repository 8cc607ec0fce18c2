-- ===== src/Prelude/Text.antt =====
-- Texts by their characters: the code points of a text, which are its bytes if it is ASCII.
use Prim.Native.Nat.{ℕ}
use Prim.Native.Char.{code}
use Prim.Native.String.{String, ◌++◌}
use mathlib.Core.Bool.{Bool, false, true}
use mathlib.Core.List.{List, [], ◌∷◌}
use mathlib.Core.Option.{Option, none, some}
use mathlib.Core.Path.{◌≡◌, refl}
use native.Mathlib.Omega.{arith}
use text.Mathlib.TextEquality.{Char-path}
use gomatrixserverlib.Prelude.Tests.{ltb, nat_eq, if◌then◌else◌}

-- `s + t`
abbrev pub concat : String → String → String
concat s t = s ++ t

abbrev pub codes : String → List ℕ
codes String.[] = []
codes (String.◌∷◌ c s) = code c ∷ codes s

-- `len(s) > 0 && s[0] == b`, for an ASCII `b`
abbrev pub first_is : ℕ → String → Bool
first_is b String.[] = false
first_is b (String.◌∷◌ c s) = nat_eq (code c) b

-- What follows the first `b`: `strings.SplitN(s, string(b), 2)[1]`, or nothing if there is no `b`.
unfoldable pub after_first : ℕ → String → Option String
after_first b String.[] = none
after_first b (String.◌∷◌ c s) = if nat_eq (code c) b then some s else after_first b s

-- What stands before the first `b`: the whole text if there is none.
unfoldable pub before_first : ℕ → String → String
before_first b String.[] = String.[]
before_first b (String.◌∷◌ c s) =
    if nat_eq (code c) b then String.[] else String.◌∷◌ c (before_first b s)

-- `strings.Compare(s, t) < 0`: the first character that differs decides. UTF-8 keeps the order of
-- the code points, so that of the bytes is the same.
unfoldable pub text_less : String → String → Bool
text_less String.[] String.[] = false
text_less String.[] (String.◌∷◌ d t) = true
text_less (String.◌∷◌ c s) String.[] = false
text_less (String.◌∷◌ c s) (String.◌∷◌ d t) =
    let rest = text_less s t in
    if ltb (code c) (code d) then true else if nat_eq (code c) (code d) then rest else false

pub text_less_irrefl : (s : String) → text_less s s ≡ false
unfolding text_less
text_less_irrefl String.[] = refl
text_less_irrefl (String.◌∷◌ c s) = ground (arith, text_less_irrefl s)

pub text_less_trans :
    (s t u : String) → text_less s t ≡ true → text_less t u ≡ true → text_less s u ≡ true
unfolding text_less
text_less_trans String.[] String.[] u h k = cc
text_less_trans String.[] (String.◌∷◌ d t) String.[] h k = cc
text_less_trans String.[] (String.◌∷◌ d t) (String.◌∷◌ e u) h k = refl
text_less_trans (String.◌∷◌ c s) String.[] u h k = cc
text_less_trans (String.◌∷◌ c s) (String.◌∷◌ d t) String.[] h k = cc
text_less_trans (String.◌∷◌ c s) (String.◌∷◌ d t) (String.◌∷◌ e u) h k =
    ground (arith, text_less_trans s t u, h, k)

-- Of two texts neither of which is less, each is the other.
pub text_less_total : (s t : String) → text_less s t ≡ false → text_less t s ≡ false → s ≡ t
unfolding text_less
text_less_total String.[] String.[] h k = refl
text_less_total String.[] (String.◌∷◌ d t) h k = cc
text_less_total (String.◌∷◌ c s) String.[] h k = cc
text_less_total (String.◌∷◌ c s) (String.◌∷◌ d t) h k =
    let same : code c ≡ code d = ground (arith, h, k) in
    let rest : s ≡ t = text_less_total s t (ground (arith, h, same)) (ground (arith, k, same)) in
    λ i. String.◌∷◌ (Char-path c d same i) (rest i)
