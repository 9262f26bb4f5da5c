-- ===== src/Discovery/Networks/Blocks.antt =====
-- The network that `parseNetwork` gives is one block of the address space.
use Prim.Native.Nat.{bit_and, bit_xor}
use management_app.Base.{
  ℕ, suc, ◌+◌, ◌-◌, ◌*◌, ◌/◌, ◌^◌, ◌≤◌, ◌<◌, ◌≡◌, refl, sym, ◌⊎◌, inl, inr, arith, ◌||◌, some, eqb,
  ok, guard_bind, bind-eq-ok, or_throw_bind, Bool-cases,
}
use management_app.Base.Int.{pos, negsuc}
use management_app.Base.Number.{Number, integer, other}
use management_app.Bits.{bit_and_zero, block_fits, high_mask, mask_rounds_down}
use mathlib.Core.Path.{subst}
use native.Mathlib.Nat.{div-eq_of_lt, div-add-mod', mod-lt, one-le-pow}
use management_app.Text.{Text, trim, split}
use management_app.Discovery.Addresses.Bounds.{ipv4_value_bound, ipv6_value_bound}
use management_app.Discovery.Networks.{
  Network, Platform, first_piece, second_number, prefix_within, max_bits, network_mask,
  invalid_cidr, address_value, network_of, parse_network, Holds,
}

pub network_mask_rounds_down :
    (bits host value : ℕ)
    → host ≤ bits
    → value < 2 ^ bits
    → bit_and value (network_mask bits host) ≡ value / 2 ^ host * 2 ^ host
network_mask_rounds_down bits host value h small = elim (Bool-cases (eqb host bits)) [
  | inl whole ↦
      let same : host ≡ bits = ground arith in
      let none_left : value / 2 ^ host ≡ 0 = div-eq_of_lt (rw same small) in
      rw (whole, none_left) (omega (arith, bit_and_zero value value (omega arith)))
  | inr part ↦
      let parts : bits - host + host ≡ bits = omega arith in
      let mask = high_mask (bits - host) host in
      let word : bit_xor (2 ^ bits - 1) (2 ^ host - 1) ≡ (2 ^ (bits - host) - 1) * 2 ^ host =
        rw parts at mask in
      let rounded = mask_rounds_down (bits - host) host value (rw parts small) in
      rw part (rw (← rounded, word) refl)
]

-- The addresses of a network are one block of `2 ^ host` of the address space: with `host` the
-- bits behind the prefix, `first` is a multiple of `2 ^ host` and `last` the end of that block.
pub record IsBlock (n : Network) : Type 0 where
  pub is_version : (n.version ≡ 4) ⊎ (n.version ≡ 6)
  pub prefix_fits : n.prefix ≤ max_bits n.version
  pub block : ℕ
  pub first_is : n.first ≡ block * 2 ^ (max_bits n.version - n.prefix)
  pub last_is : suc n.last ≡ suc block * 2 ^ (max_bits n.version - n.prefix)
  pub in_space : n.last < 2 ^ max_bits n.version

network_of-IsBlock :
    (input : Text) (version prefix value : ℕ)
    → (version ≡ 4) ⊎ (version ≡ 6)
    → prefix ≤ max_bits version
    → value < 2 ^ max_bits version
    → IsBlock (network_of input version prefix value)
      × Holds (network_of input version prefix value) value
network_of-IsBlock input version prefix value v h small = (
  record {
    is_version = v;
    prefix_fits = h;
    block = value / 2 ^ host;
    first_is = rounded;
    last_is = omega (arith, rounded, one-le-pow host 2);
    in_space = omega (arith, rounded, fits, one-le-pow host 2);
  },
  (
    omega (arith, rounded, div-add-mod' value (2 ^ host)),
    omega (
      arith,
      rounded,
      div-add-mod' value (2 ^ host),
      mod-lt value (one-le-pow host 2 (omega arith)),
      one-le-pow host 2,
    ),
  ),
)
  where
    bits : ℕ
    bits = max_bits version

    host : ℕ
    host = bits - prefix

    rounded : bit_and value (network_mask bits host) ≡ value / 2 ^ host * 2 ^ host
    rounded = network_mask_rounds_down bits host value (omega arith) small

    parts : bits - host + host ≡ bits
    parts = omega arith

    fits : suc (value / 2 ^ host) * 2 ^ host ≤ 2 ^ bits
    fits = rw parts at (block_fits (bits - host) host value (rw parts small))

prefix_within_bound : (most : ℕ) (n : Number) (p : ℕ) → prefix_within most n ≡ some p → p ≤ most
prefix_within_bound most (integer (pos n)) p h = ground arith
prefix_within_bound most (integer (negsuc n)) p h = absurd (cc)
prefix_within_bound most other p h = absurd (cc)

address_value_bound :
    (version : ℕ) (t : Text) (v : ℕ) → address_value version t ≡ ok v → v < 2 ^ max_bits version
address_value_bound version t v h = elim (Bool-cases (eqb version 4)) [
  | inl is_four ↦ rw is_four (ipv4_value_bound t v (rw is_four at h))
  | inr is_six ↦ rw is_six (ipv6_value_bound t v (rw is_six at h))
]

-- What a text that is parsed has gone through.
pub parse_network_lem :
    (js : Platform) (input : Text) (n : Network)
    → parse_network js input ≡ ok n
    → (value : ℕ) × (address_value n.version (first_piece (split b'/' (trim input))) ≡ ok value)
      × (n.version ≡ js.is_ip (first_piece (split b'/' (trim input))))
      × ((n.version ≡ 4) ⊎ (n.version ≡ 6))
      × (prefix_within (max_bits n.version) (second_number js (split b'/' (trim input)))
          ≡ some n.prefix)
      × (n ≡ network_of input n.version n.prefix value)
unfolding parse_network
parse_network_lem js input n h =
    let pieces = split b'/' (trim input) in
    let version = js.is_ip (first_piece pieces) in
    let (known, h1) = guard_bind (eqb version 4 || eqb version 6) invalid_cidr _ h in
    let (prefix, given, h2) =
      or_throw_bind (prefix_within (max_bits version) (second_number js pieces)) invalid_cidr _
        h1 in
    let (value, read, h3) = bind-eq-ok (address_value version (first_piece pieces)) _ h2 in
    let same : network_of input version prefix value ≡ n = cc in
    rw (← same) (value, read, refl, ground arith, given, refl)

-- A text that `parseNetwork` accepts gives one aligned block of addresses, which holds the address
-- that was written.
pub parse_network-IsBlock :
    (js : Platform) (input : Text) (n : Network)
    → parse_network js input ≡ ok n
    → IsBlock n
      × ((value : ℕ) × (address_value n.version (first_piece (split b'/' (trim input))) ≡ ok value)
          × Holds n value)
parse_network-IsBlock js input n h =
    let (value, read, _, known, given, shape) = parse_network_lem js input n h in
    let small = address_value_bound n.version (first_piece (split b'/' (trim input))) value read in
    let (block, held) =
      network_of-IsBlock input n.version n.prefix value known
        (prefix_within_bound (max_bits n.version) _ n.prefix given) small in
    (
      subst (λ x. IsBlock x) (sym shape) block,
      (value, read, subst (λ x. Holds x value) (sym shape) held),
    )
