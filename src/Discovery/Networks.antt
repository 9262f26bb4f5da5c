-- ===== src/Discovery/Networks.antt =====
-- `parseNetwork`, `overlaps` and `contained` of discovery-policy.ts. Node's `net.isIP` is the
-- parameter `is_ip`, and `Number` on texts other than plain digits is `other_forms`.
pub mod Blocks
use Prim.Native.Nat.{bit_and, bit_xor}
use management_app.Base.{
  ℕ, suc, ◌+◌, ◌-◌, ◌*◌, ◌/◌, ◌^◌, ◌≤◌, ◌<◌, ◌≡◌, refl, sym, ◌⊎◌, inl, inr, arith, Bool, ◌&&◌, ◌||◌,
  Option, none, some, List, [], ◌∷◌, leb, eqb, if◌then◌else◌, Result, ok, ◌>>=◌, ◌>>◌, guard,
  or_throw, guard_bind, bind-eq-ok, or_throw_bind, Bool-cases,
}
use management_app.Base.Int.{pos, negsuc}
use management_app.Base.Number.{Number, integer, other}
use management_app.Bits.{bit_and_zero, block_fits, high_mask, mask_rounds_down}
use mathlib.Core.Path.{subst}
use native.Mathlib.Nat.{div-eq_of_lt, div-add-mod', mod-lt, one-le-pow}
use management_app.Text.{Text, trim, split, number}
use management_app.Discovery.Addresses.{Failure, policy, ipv4_value, ipv6_value}
use management_app.Discovery.Addresses.Bounds.{ipv4_value_bound, ipv6_value_bound}

pub record Network : Type 0 where
  pub version : ℕ
  pub prefix : ℕ
  pub first : ℕ
  pub last : ℕ
  pub cidr : Text

-- What the code takes from outside: `net.isIP`, and `Number` on texts that are not digits.
pub record Platform : Type 0 where
  pub is_ip : Text → ℕ
  pub other_forms : Text → Number

-- `const [address, prefixText] = pieces`
abbrev pub first_piece : List Text → Text
first_piece [] = []
first_piece (a ∷ _) = a

-- `Number(prefixText)`, which is `NaN` where there is no second piece.
abbrev pub second_number : Platform → List Text → Number
second_number js (_ ∷ b ∷ _) = number js.other_forms b
second_number js _ = other

-- `Number.isInteger(n) && n >= 0 && n <= most`
abbrev pub prefix_within : ℕ → Number → Option ℕ
prefix_within most (integer (pos n)) = if leb n most then some n else none
prefix_within most (integer (negsuc n)) = none
prefix_within most other = none

abbrev pub max_bits : ℕ → ℕ
max_bits version = if eqb version 4 then 32 else 128

-- `((1n << maxBits) - 1n) ^ ((1n << hostBits) - 1n)`, and no bit where the whole is host.
abbrev pub network_mask : ℕ → ℕ → ℕ
network_mask bits host = if eqb host bits then 0 else bit_xor (2 ^ bits - 1) (2 ^ host - 1)

abbrev pub invalid_cidr : Failure
invalid_cidr = policy "DISCOVERY_CIDR_INVALID"

abbrev pub address_value : ℕ → Text → Result Failure ℕ
address_value version address = if eqb version 4 then ipv4_value address else ipv6_value address

-- The network of an address value.
abbrev pub network_of : Text → ℕ → ℕ → ℕ → Network
network_of input version prefix value =
    let host = max_bits version - prefix in
    let first = bit_and value (network_mask (max_bits version) host) in
    record {
      version = version;
      prefix = prefix;
      first = first;
      last = first + 2 ^ host - 1;
      cidr = trim input;
    }

unfoldable pub parse_network : Platform → Text → Result Failure Network
parse_network js input = do
  let pieces = split b'/' (trim input)
  let version = js.is_ip (first_piece pieces)
  guard (eqb version 4 || eqb version 6) invalid_cidr
  prefix ← or_throw (prefix_within (max_bits version) (second_number js pieces)) invalid_cidr
  value ← address_value version (first_piece pieces)
  ok (network_of input version prefix value)

unfoldable pub overlaps : Network → Network → Bool
overlaps left right =
    eqb left.version right.version && leb left.first right.last && leb right.first left.last

unfoldable pub contained : Network → Network → Bool
contained target parent =
    eqb target.version parent.version
    && leb parent.first target.first
    && leb target.last parent.last

-- An address of a network.
abbrev pub Holds : Network → ℕ → Type 0
Holds n a = (n.first ≤ a) × (a ≤ n.last)
