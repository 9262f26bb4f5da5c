-- ===== src/Ipam/Planning.antt =====
-- `calculateIpv4SubnetPlan` of ipam-advanced.service.ts, with `normalizeIpv4`, `ipv4Number` and
-- `ipv4Cidr`: which addresses of a subnet are taken and which gaps are left.
pub mod Gaps
mod Tests
use Prim.Native.Nat.{bit_and, bit_or}
use management_app.Base.{
  ℕ, ◌+◌, ◌-◌, ◌*◌, String, Bool, not, ◌&&◌, Option, none, some, List, [], ◌∷◌, map, ◌==◌, filter,
  leb, ltb, eqb, length, if◌then◌else◌, Result, ok, err, ◌>>=◌, or_throw,
}
use management_app.Base.HttpError.{HttpError, bad_request}
use management_app.Collections.Ascending.{ascending_set}
use management_app.Text.{Text, trim, split, number}
use management_app.Discovery.Networks.{Platform, first_piece, second_number, prefix_within}
use management_app.Discovery.Hosts.{mask32, complement32, number_to_ipv4}

-- `normalizeIpv4` followed by a split: the numbers of the four parts.
unfoldable pub octets : Platform → List Text → Option (List ℕ)
octets js [] = some []
octets js (part ∷ parts) =
    let rest = octets js parts in
    elim (prefix_within 255 (number js.other_forms part)) [
      | none ↦ none
      | some n ↦ elim rest [ none ↦ none | some ns ↦ some (n ∷ ns) ]
    ]

abbrev pub four_octets : List ℕ → Option ℕ
four_octets (a ∷ b ∷ c ∷ d ∷ []) = some (((a * 256 + b) * 256 + c) * 256 + d)
four_octets _ = none

unfoldable pub ipv4_number : Platform → Text → Result HttpError ℕ
ipv4_number js address = do
  parts ← or_throw (octets js (split b'.' address)) (bad_request "IPv4 inválido")
  or_throw (four_octets parts) (bad_request "IPv4 inválido")

pub record Ipv4Cidr : Type 0 where
  pub prefix : ℕ
  pub network : ℕ
  pub broadcast : ℕ

unfoldable pub ipv4_cidr : Platform → Text → Result HttpError Ipv4Cidr
ipv4_cidr js cidr = do
  let pieces = split b'/' (trim cidr)
  prefix ←
      or_throw (prefix_within 32 (second_number js pieces)) (bad_request "Prefixo IPv4 inválido")
  value ← ipv4_number js (first_piece pieces)
  let mask = mask32 prefix
  let network = bit_and value mask
  ok (record { prefix = prefix; network = network; broadcast = bit_or network (complement32 mask) })

-- An address row: its text and its state.
pub record AddressRow : Type 0 where
  pub address : Text
  pub state : String

pub record Gap : Type 0 where
  pub start : ℕ
  pub end : ℕ
  pub count : ℕ

-- The loop over the unavailable addresses, and the gap that is left behind the last one.
unfoldable pub usable_gaps : ℕ → ℕ → List ℕ → List Gap
usable_gaps cursor last [] =
    if leb cursor last
    then record { start = cursor; end = last; count = last - cursor + 1 } ∷ []
    else []
usable_gaps cursor last (value ∷ values) =
    let rest = usable_gaps (value + 1) last values in
    if ltb cursor value
    then record { start = cursor; end = value - 1; count = value - cursor } ∷ rest
    else rest

unfoldable pub numbers_of : Platform → List AddressRow → Result HttpError (List ℕ)
numbers_of js [] = ok []
numbers_of js (row ∷ rows) = do n ← ipv4_number js row.address; ns ← numbers_of js rows; ok (n ∷ ns)

abbrev pub first_usable : Ipv4Cidr → ℕ
first_usable info = if leb 31 info.prefix then info.network else info.network + 1

abbrev pub last_usable : Ipv4Cidr → ℕ
last_usable info = if leb 31 info.prefix then info.broadcast else info.broadcast - 1

-- The addresses are numbers here; the source writes them by `ipv4Address` as it returns them. The
-- rounded percentage and `usableRange` (the first and last usable address) are left out.
pub record SubnetPlan : Type 0 where
  pub network : ℕ
  pub broadcast : ℕ
  pub usable_total : ℕ
  pub unavailable_addresses : List ℕ
  pub free : ℕ
  pub gaps : List Gap

-- The plan, once the numbers of the addresses that are not free are read.
abbrev pub plan_of : Ipv4Cidr → List ℕ → SubnetPlan
plan_of info numbers =
    let first = first_usable info in
    let last = last_usable info in
    let unavailable = ascending_set (filter (λ v. leb first v && leb v last) numbers) in
    let usable_total = last + 1 - first in
    record {
      network = info.network;
      broadcast = info.broadcast;
      usable_total = usable_total;
      unavailable_addresses = unavailable;
      free = usable_total - length unavailable;
      gaps = usable_gaps first last unavailable;
    }

unfoldable pub calculate_ipv4_subnet_plan :
    Platform → Text → List AddressRow → Result HttpError SubnetPlan
calculate_ipv4_subnet_plan js cidr rows = do
  info ← ipv4_cidr js cidr
  numbers ← numbers_of js (filter (λ (r : AddressRow). not (r.state == "FREE")) rows)
  ok (plan_of info numbers)
