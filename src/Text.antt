-- ===== src/Text.antt =====
-- What the sources use of JavaScript's strings: a text is the list of its UTF-16 code units. Each
-- function is `String.prototype`'s of that name on the arguments that the sources give.
pub mod Trim
pub mod Sets
use Prim.Native.Char.{code}
use management_app.Base.{
  ℕ, ◌+◌, ◌-◌, ◌*◌, String, Bool, ◌&&◌, ◌||◌, List, [], ◌∷◌, leb, eqb, any, all, is_empty,
  if◌then◌else◌,
}
use management_app.Base.Int.{pos}
use management_app.Base.Number.{Number, integer}

abbrev pub Text : Type 0
Text = List ℕ

-- A literal of the source.
abbrev pub codes : String → Text
codes String.[] = []
codes (String.◌∷◌ c s) = code c ∷ codes s

-- The white space and line ends that `trim` and `Number` take off.
abbrev pub is_space : ℕ → Bool
is_space c =
    leb 9 c && leb c 13
    || eqb c 32
    || eqb c 0xa0
    || eqb c 0x1680
    || leb 0x2000 c && leb c 0x200a
    || eqb c 0x2028
    || eqb c 0x2029
    || eqb c 0x202f
    || eqb c 0x205f
    || eqb c 0x3000
    || eqb c 0xfeff

pub trim_start : Text → Text
trim_start [] = []
trim_start (c ∷ t) = if is_space c then trim_start t else c ∷ t

-- A text without the white space at its end.
pub trim_end : Text → Text
trim_end [] = []
trim_end (c ∷ t) = let rest = trim_end t in if is_empty rest && is_space c then [] else c ∷ rest

unfoldable pub trim : Text → Text
unfolding trim_start trim_end
trim t = trim_end (trim_start t)

-- The next code unit goes to the front of the first piece.
abbrev pub prepend : ℕ → List Text → List Text
prepend c [] = (c ∷ []) ∷ []
prepend c (t ∷ ts) = (c ∷ t) ∷ ts

-- `text.split(separator)` for a separator of one code unit.
unfoldable pub split : ℕ → Text → List Text
split sep [] = [] ∷ []
split sep (c ∷ t) = let rest = split sep t in if eqb c sep then [] ∷ rest else prepend c rest

-- `text.split('::')`: from the left, matches do not overlap.
unfoldable pub split_double : ℕ → Text → List Text
split_double sep [] = [] ∷ []
split_double sep (c ∷ []) = (c ∷ []) ∷ []
split_double sep (c ∷ d ∷ t) =
    let after = split_double sep t in
    let next = split_double sep (d ∷ t) in
    if eqb c sep && eqb d sep then [] ∷ after else prepend c next

abbrev pub contains : ℕ → Text → Bool
contains c = any (eqb c)

-- `toLowerCase` on ASCII letters. Other letters stay, of which no caller accepts any.
abbrev pub lower : ℕ → ℕ
lower c = if leb b'A' c && leb c b'Z' then c + 32 else c

-- `\d`
abbrev pub is_digit : ℕ → Bool
is_digit c = leb b'0' c && leb c b'9'

pub decimal_from : ℕ → Text → ℕ
decimal_from v [] = v
decimal_from v (c ∷ t) = decimal_from (v * 10 + (c - b'0')) t

-- The value of a text of digits.
unfoldable pub decimal : Text → ℕ
unfolding decimal_from
decimal = decimal_from 0

-- `Number(text)` on a text of digits, and on one that is empty or all white space. What it answers
-- on all other forms (signs, fractions, exponents, hexadecimal) is the parameter `other_forms`. A
-- value above 2 ^ 53 is rounded there; all callers compare with bounds far below.
unfoldable pub number : (Text → Number) → Text → Number
unfolding trim decimal
number other_forms t =
    if is_empty (trim t)
    then integer (pos 0)
    else if all is_digit (trim t)
    then integer (pos (decimal (trim t)))
    else other_forms t
