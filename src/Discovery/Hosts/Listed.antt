-- ===== src/Discovery/Hosts/Listed.antt =====
-- Which addresses `hostsFor` lists, told by the network that `parseNetwork` reads from the text.
use native.Mathlib.Nat.{mod-eq_of_lt, one-le-pow}
use Prim.Native.Nat.{bit_and}
use management_app.Base.{
  ℕ, zero, suc, ◌+◌, ◌-◌, ◌^◌, ◌≤◌, ◌<◌, ◌≡◌, refl, ap, ◌∙◌, inl, inr, ◌↔◌, arith, ◌&&◌, some, List,
  map, all, length, eqb, leb, if◌then◌else◌, ok, guard_bind, or_throw_bind, Elem, Elem-of_map,
  Elem-map, Bool-cases,
}
use management_app.Bits.{bit_or_block}
use management_app.Text.{Text, trim, split, decimal}
use management_app.Discovery.Addresses.{is_octet, reduce_parts, ipv4_value}
use management_app.Discovery.Addresses.Bounds.{ipv4_value_bound}
use management_app.Discovery.Networks.{
  Network, Platform, first_piece, second_number, prefix_within, parse_network, network_mask,
  max_bits,
}
use management_app.Discovery.Networks.Blocks.{parse_network_lem, parse_network-IsBlock}
use management_app.Discovery.Hosts.{
  ipv4_to_number, number_to_ipv4, network_address, broadcast_address, first_host, host_count, range,
  hosts_for, max_discovery_hosts,
}
use management_app.Discovery.Hosts.Words.{mask32_lem, complement32_lem}

Elem-range : (a first count : ℕ) → Elem a (range first count) ↔ ((first ≤ a) × (a < first + count))
Elem-range a first zero = ((λ m. absurd m), (λ h. omega arith))
Elem-range a first (suc count) = grind (arith, Elem-range a (first + 1) count)

pub length-range : (first count : ℕ) → length (range first count) ≡ count
length-range first zero = refl
length-range first (suc count) = ap suc (length-range (first + 1) count)

-- The addresses of a network that can be given to a host: all but the first and the last, and all
-- of a network of one or two addresses.
abbrev pub IsUsable : Network → ℕ → Type 0
IsUsable n a = (n.first ≤ a) × (a ≤ n.last) × ((n.prefix ≤ 30) → (n.first < a) × (a < n.last))

counted_range_iff :
    (n : Network) (a : ℕ)
    → Elem a (
        range (if leb 31 n.prefix then n.first else n.first + 1) (
          if leb
            (if leb 31 n.prefix then n.first else n.first + 1)
            (if leb 31 n.prefix then n.last else n.last - 1)
          then (if leb 31 n.prefix then n.last else n.last - 1)
            - (if leb 31 n.prefix then n.first else n.first + 1)
            + 1
          else 0))
      ↔ IsUsable n a
counted_range_iff n a = elim (Bool-cases (leb 31 n.prefix)) [
  | inl long ↦ rw long (elim (Bool-cases (leb n.first n.last)) [
    | inl some_there ↦ rw some_there grind (arith, Elem-range a n.first (n.last - n.first + 1))
    | inr none_there ↦ rw none_there ((λ m. absurd m), (λ h. ground arith))
  ])
  | inr short ↦ rw short (elim (Bool-cases (leb (n.first + 1) (n.last - 1))) [
    | inl some_there ↦
        rw some_there grind (arith, Elem-range a (n.first + 1) (n.last - 1 - (n.first + 1) + 1))
    | inr none_there ↦ rw none_there ((λ m. absurd m), (λ h. ground arith))
  ])
]

-- The text of an address is read alike by `ipv4ToNumber` and by `ipv4Value`.
ipv4_to_number_lem : (t : Text) (v : ℕ) → ipv4_value t ≡ ok v → ipv4_to_number t ≡ v
unfolding ipv4_value ipv4_to_number
ipv4_to_number_lem t v h =
    let (_, e) = guard_bind (eqb (length (split b'.' t)) 4 && all is_octet (split b'.' t)) _ _ h in
    let same : reduce_parts 8 decimal 0 (split b'.' t) ≡ v = cc in
    rw same (mod-eq_of_lt (ipv4_value_bound t v h))

module _ (js : Platform) (cidr : Text) (n : Network) (parsed : parse_network js cidr ≡ ok n)
    (is_four : n.version ≡ 4) where
  abbrev pub address : Text
  address = first_piece (split b'/' (trim cidr))

  pub prefix_fits : n.prefix ≤ 32
  prefix_fits = let b = (parse_network-IsBlock js cidr n parsed).0 in rw is_four at b.prefix_fits

  pub network_address_lem : network_address address n.prefix ≡ n.first
  network_address_lem =
      let (value, read, _, _, _, shape) = parse_network_lem js cidr n parsed in
      let here : ipv4_value address ≡ ok value = rw is_four at read in
      let mask = ap (λ v. network_mask (max_bits v) (max_bits v - n.prefix)) is_four in
      let first : n.first ≡ bit_and value (network_mask 32 (32 - n.prefix)) =
        ap (λ (x : Network). x.first) shape ∙ ap (bit_and value) mask in
      rw (ipv4_to_number_lem address value here, mask32_lem n.prefix prefix_fits, first) refl

  pub broadcast_address_lem : broadcast_address address n.prefix ≡ n.last
  broadcast_address_lem =
      let b = (parse_network-IsBlock js cidr n parsed).0 in
      let first = rw is_four at b.first_is in
      let last = rw is_four at b.last_is in
      let filled =
        bit_or_block (32 - n.prefix) b.block (2 ^ (32 - n.prefix) - 1)
          (omega (arith, one-le-pow (32 - n.prefix) 2)) in
      rw (network_address_lem, complement32_lem n.prefix prefix_fits, first)
        (rw filled (omega (arith, first, last, one-le-pow (32 - n.prefix) 2)))

  -- The hosts of the run are the usable addresses of the network.
  counted_iff :
      (a : ℕ)
      → Elem a (range (first_host address n.prefix) (host_count address n.prefix)) ↔ IsUsable n a
  counted_iff a = rw (broadcast_address_lem, network_address_lem) (counted_range_iff n a)

  listed_step :
      (hs : List Text)
      → hosts_for js cidr ≡ ok hs
      → (map number_to_ipv4 (range (first_host address n.prefix) (host_count address n.prefix))
          ≡ hs)
        × (host_count address n.prefix ≤ max_discovery_hosts)
  unfolding hosts_for
  listed_step hs h =
      let (_, h1) =
        guard_bind (eqb (length (split b'.' address)) 4 && all is_octet (split b'.' address)) _ _
          h in
      let (bits, given, h2) =
        or_throw_bind (prefix_within 32 (second_number js (split b'/' (trim cidr)))) _ _ h1 in
      let (few, h3) = guard_bind (leb (host_count address bits) max_discovery_hosts) _ _ h2 in
      let (_, _, _, _, read, _) = parse_network_lem js cidr n parsed in
      let again : prefix_within 32 (second_number js (split b'/' (trim cidr))) ≡ some n.prefix =
        rw is_four at read in
      let same : bits ≡ n.prefix = cc in rw (← same) (cc, ground (arith, few))

-- For a text that `parseNetwork` reads as an IPv4 network, `hostsFor` lists the texts of the usable
-- addresses of that network: of all in a network of one or two addresses, of all but the first and
-- the last in a larger one.
pub hosts_for_iff :
    (js : Platform) (cidr : Text) (n : Network) (hs : List Text) (host : Text)
    → parse_network js cidr ≡ ok n
    → n.version ≡ 4
    → hosts_for js cidr ≡ ok hs
    → Elem host hs ↔ ((a : ℕ) × IsUsable n a × (host ≡ number_to_ipv4 a))
hosts_for_iff js cidr n hs host parsed is_four h = (to, from)
  where
    addresses : List ℕ
    addresses =
        range (first_host (address js cidr n parsed is_four) n.prefix)
          (host_count (address js cidr n parsed is_four) n.prefix)

    listed : map number_to_ipv4 addresses ≡ hs
    listed = (listed_step js cidr n parsed is_four hs h).0

    to : Elem host hs → (a : ℕ) × IsUsable n a × (host ≡ number_to_ipv4 a)
    to m =
        let (a, k, e) = Elem-of_map number_to_ipv4 host addresses (rw (← listed) at m) in
        (a, (counted_iff js cidr n parsed is_four a).0 k, e)

    from : (a : ℕ) × IsUsable n a × (host ≡ number_to_ipv4 a) → Elem host hs
    from (a, usable, e) =
        let k = (counted_iff js cidr n parsed is_four a).1 usable in
        rw (← listed, e) (Elem-map number_to_ipv4 a addresses k)
