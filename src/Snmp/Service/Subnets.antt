-- ===== src/Snmp/Service/Subnets.antt =====
-- `ipv4Number`, `inCidr` and `mostSpecificSubnet` of snmp.service.ts. A part with a fraction, which
-- the source takes for a number, counts as none here; no stored address has one.
pub mod Longest
use Prim.Native.Nat.{bit_and}
use management_app.Base.{
  ℕ, ◌≤◌, ◌≡◌, refl, sym, ◌∙◌, ◌⊎◌, ◌↔◌, inl, inr, arith, Bool, true, false, Option, none, some,
  List, [], ◌∷◌, filter, leb, leb→le, eqb, Elem, Elem-of_filter, Elem-filter, Bool-cases,
  if◌then◌else◌,
}
use management_app.Base.Sort.{insert, sort, Elem-of_insert, Elem-of_sort, Elem-sort}
use management_app.Text.{Text, split}
use management_app.Discovery.Networks.{Platform, first_piece, second_number, prefix_within}
use management_app.Discovery.Hosts.{mask32}
use management_app.Ipam.Planning.{octets, four_octets}

-- A row of `Subnet` of version 4.
pub record Subnet : Type 0 where
  pub id : Text
  pub site_id : Text
  pub cidr : Text

unfoldable pub ipv4_number : Platform → Text → Option ℕ
ipv4_number js address = elim (octets js (split b'.' address)) [
  | none ↦ none
  | some parts ↦ four_octets parts
]

abbrev pub prefix_of : Platform → Text → Option ℕ
prefix_of js cidr = prefix_within 32 (second_number js (split b'/' cidr))

abbrev pub under_mask : Option ℕ → Option ℕ → Option ℕ → Bool
under_mask (some ip) (some network) (some prefix) =
    eqb (bit_and ip (mask32 prefix)) (bit_and network (mask32 prefix))
under_mask _ _ _ = false

unfoldable pub in_cidr : Platform → Text → Text → Bool
unfolding ipv4_number
in_cidr js address cidr =
    under_mask (ipv4_number js address) (ipv4_number js (first_piece (split b'/' cidr)))
      (prefix_of js cidr)

-- The length of a prefix, of a subnet that passes the filter.
abbrev pub bits_of : Platform → Subnet → ℕ
bits_of js s = elim (prefix_of js s.cidr) [ none ↦ 0 | some n ↦ n ]

abbrev pub first_of : {A : Type 0} → List A → Option A
first_of [] = none
first_of (s ∷ _) = some s

unfoldable pub most_specific_subnet : Platform → Text → List Subnet → Option Subnet
unfolding in_cidr
most_specific_subnet js address subnets = first_of (
    sort (λ (a b : Subnet). leb (bits_of js b) (bits_of js a))
      (filter (λ (s : Subnet). in_cidr js address s.cidr) subnets))
