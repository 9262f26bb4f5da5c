-- ===== src/Discovery/Addresses.antt =====
-- `ipv4Value` and `ipv6Value` of discovery-policy.ts. A `bigint` is a natural number.
pub mod Bounds
use Prim.Native.Nat.{bit_and}
use management_app.Base.{
  ℕ, zero, suc, ◌+◌, ◌-◌, ◌*◌, ◌/◌, ◌%◌, ◌^◌, Bool, true, false, ◌&&◌, ◌||◌, List, [], ◌∷◌, ◌++◌,
  leb, ltb, eqb, all, is_empty, length, if◌then◌else◌, map, Result, ok, ◌>>=◌, ◌>>◌, guard, String,
}
use management_app.Text.{Text, split, split_double, contains, lower, is_digit, decimal}

-- What is thrown: a `DiscoveryPolicyError` with its code, or an `Error` with its message.
pub data Failure : Type 0 where
  policy : String → Failure
  plain : String → Failure

-- `!/^\d{1,3}$/.test(part) || Number(part) > 255`, negated.
abbrev pub is_octet : Text → Bool
is_octet part =
    leb 1 (length part) && leb (length part) 3 && all is_digit part && leb (decimal part) 255

-- `parts.reduce((value, part) => (value << width) + number(part), value)`
unfoldable pub reduce_parts : ℕ → (Text → ℕ) → ℕ → List Text → ℕ
reduce_parts width number v [] = v
reduce_parts width number v (part ∷ parts) =
    reduce_parts width number (v * 2 ^ width + number part) parts

unfoldable pub ipv4_value : Text → Result Failure ℕ
unfolding reduce_parts
ipv4_value address = do
  let parts = split b'.' address
  guard (eqb (length parts) 4 && all is_octet parts) (plain "IPv4 inválido")
  ok (reduce_parts 8 decimal 0 parts)

-- A hexadecimal digit as `toString(16)` writes it, and the value that `parseInt` reads.
abbrev pub hex_digit : ℕ → ℕ
hex_digit d = if leb d 9 then b'0' + d else b'a' + (d - 10)

abbrev pub hex_digit_value : ℕ → ℕ
hex_digit_value c = if is_digit c then c - b'0' else c - b'a' + 10

-- `/[0-9a-f]/`
abbrev pub is_hex_digit : ℕ → Bool
is_hex_digit c = is_digit c || leb b'a' c && leb c b'f'

-- `toString(16)` of a number of at most 16 bits.
abbrev pub hex_text : ℕ → Text
hex_text v =
    if ltb v 16
    then hex_digit v ∷ []
    else if ltb v 256
    then hex_digit (v / 16) ∷ hex_digit (v % 16) ∷ []
    else if ltb v 4096
    then hex_digit (v / 256) ∷ hex_digit (v / 16 % 16) ∷ hex_digit (v % 16) ∷ []
    else hex_digit (v / 4096)
      ∷ hex_digit (v / 256 % 16)
      ∷ hex_digit (v / 16 % 16)
      ∷ hex_digit (v % 16)
      ∷ []

-- `parseInt(part, 16)` on hexadecimal digits.
pub hexadecimal : ℕ → Text → ℕ
hexadecimal v [] = v
hexadecimal v (c ∷ t) = hexadecimal (v * 16 + hex_digit_value c) t

-- One part of an IPv6 address: an IPv4 address in it gives two groups.
pub expand_part : Text → Result Failure (List Text)
expand_part part = elim (contains b'.' part) [
  | false ↦ ok (part ∷ [])
  | true ↦ do
    value ← ipv4_value part
    ok (hex_text (bit_and (value / 2 ^ 16) 0xffff) ∷ hex_text (bit_and value 0xffff) ∷ [])
]

pub expand_parts : List Text → Result Failure (List Text)
unfolding expand_part
expand_parts [] = ok []
expand_parts (part ∷ parts) = do
  groups ← expand_part part
  more ← expand_parts parts
  ok (groups ++ more)

pub expand : Text → Result Failure (List Text)
unfolding expand_parts
expand side = if is_empty side then ok [] else expand_parts (split b':' side)

-- `const [left = '', right = ''] = normalized.split('::')`
abbrev pub left_side : List Text → Text
left_side [] = []
left_side (l ∷ _) = l

abbrev pub right_side : List Text → Text
right_side (_ ∷ r ∷ _) = r
right_side _ = []

abbrev pub zeros : ℕ → List Text
zeros zero = []
zeros (suc n) = (b'0' ∷ []) ∷ zeros n

-- `/^[0-9a-f]{1,4}$/`
abbrev pub is_group : Text → Bool
is_group part = leb 1 (length part) && leb (length part) 4 && all is_hex_digit part

-- `missing < 0` is that the two sides have more than eight groups.
unfoldable pub ipv6_value : Text → Result Failure ℕ
unfolding expand reduce_parts hexadecimal
ipv6_value address = do
  let normalized = map lower address
  let sides = split_double b':' normalized
  guard (leb (length sides) 2) (plain "IPv6 inválido")
  left ← expand (left_side sides)
  right ← expand (right_side sides)
  let missing = 8 - (length left + length right)
  guard (leb (length left + length right) 8 && (leb 2 (length sides) || eqb missing 0))
      (plain "IPv6 inválido")
  let parts = left ++ zeros missing ++ right
  guard (eqb (length parts) 8 && all is_group parts) (plain "IPv6 inválido")
  ok (reduce_parts 16 (hexadecimal 0) 0 parts)
