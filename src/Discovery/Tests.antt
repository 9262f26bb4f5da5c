-- ===== src/Discovery/Tests.antt =====
-- A subnet of the private range 10.0.0.0/8, which the allowlist admits.
use management_app.Base.{
  ℕ, ◌≡◌, refl, inl, inr, ◌↔◌, ◌≤◌, Option, none, some, List, [], ◌∷◌, Elem, ok, arith,
  if◌then◌else◌, length,
}
use management_app.Base.Int.{pos}
use management_app.Base.Number.{Number, integer, other}
use management_app.Collections.Ascending.{ascending_set, ascending, add_all, add}
use management_app.Text.{Text, codes, contains, trim, split, split_double, number, decimal}
use management_app.Text.Sets.{set_of, set_add}
use management_app.Discovery.Addresses.{ipv4_value, ipv6_value, reduce_parts}
use management_app.Discovery.Networks.{
  Network, Platform, parse_network, overlaps, contained, Holds, address_value, first_piece,
}
use management_app.Discovery.Networks.Blocks.{IsBlock, parse_network-IsBlock}
use management_app.Discovery.Policy.{
  parse_all, normalize_allowed_cidrs, assert_discovery_allowed, normalize_discovery_ports,
}
use management_app.Discovery.Hosts.{hosts_for, number_to_ipv4, ipv4_to_number, octet_text}
use management_app.Discovery.Hosts.Decimal.{ipv4_value-number_to_ipv4}
use management_app.Discovery.Hosts.Listed.{IsUsable, hosts_for_iff}
use management_app.Discovery.Hosts.Limit.{hosts_for_total}
use management_app.Discovery.Hosts.Probes.{no_forbidden_probe}

-- Enough of `net.isIP` for the texts below.
abbrev js : Platform
js = record { is_ip = λ t. if contains b':' t then 6 else 4; other_forms = λ t. other }

abbrev target : Text
target = codes " 10.20.30.0/30"

abbrev setting : Option (List (Option Text))
setting = some (some (codes "10.0.0.0/8 ") ∷ none ∷ [])

abbrev net : Network
net = record {
  version = 4;
  prefix = 30;
  first = 169090560;
  last = 169090563;
  cidr = codes "10.20.30.0/30";
}

parsed : parse_network js target ≡ ok net
unfolding parse_network trim split number decimal ipv4_value reduce_parts
parsed = refl

accepted : assert_discovery_allowed js target setting ≡ ok net
unfolding assert_discovery_allowed parse_all normalize_allowed_cidrs overlaps contained set_of
    set_add parse_network trim split number decimal ipv4_value ipv6_value reduce_parts split_double
accepted = refl

abbrev loopback : Network
loopback = record {
  version = 4;
  prefix = 8;
  first = 2130706432;
  last = 2147483647;
  cidr = codes "127.0.0.0/8";
}

loopback_parsed : parse_network js (codes "127.0.0.0/8") ≡ ok loopback
unfolding parse_network trim split number decimal ipv4_value reduce_parts
loopback_parsed = refl

abbrev two_hosts : List Text
two_hosts = codes "10.20.30.1" ∷ codes "10.20.30.2" ∷ []

listed : hosts_for js target ≡ ok two_hosts
unfolding hosts_for trim split number decimal reduce_parts ipv4_to_number number_to_ipv4 octet_text
listed = refl

parse_network-IsBlock_example :
    IsBlock net
    × ((value : ℕ) × (address_value 4 (first_piece (split b'/' (trim target))) ≡ ok value)
        × Holds net value)
parse_network-IsBlock_example = parse_network-IsBlock js target net parsed

hosts_for_iff_example :
    Elem (codes "10.20.30.1") two_hosts
    ↔ ((a : ℕ) × IsUsable net a × (codes "10.20.30.1" ≡ number_to_ipv4 a))
hosts_for_iff_example =
    hosts_for_iff js target net two_hosts (codes "10.20.30.1") parsed refl listed

hosts_for_total_example : (hs : List Text) × (hosts_for js target ≡ ok hs) × (length hs ≤ 4096)
hosts_for_total_example = hosts_for_total js target net parsed refl (omega arith)

ipv4_value-number_to_ipv4_example : ipv4_value (number_to_ipv4 169090561) ≡ ok 169090561
ipv4_value-number_to_ipv4_example = ipv4_value-number_to_ipv4 169090561 (omega arith)

no_forbidden_probe_example :
    (a : ℕ) × (ipv4_value (codes "10.20.30.1") ≡ ok a) × (¬ Holds loopback a)
no_forbidden_probe_example =
    no_forbidden_probe js target setting net two_hosts (codes "10.20.30.1") accepted refl listed
      (inl refl) (codes "127.0.0.0/8") loopback (inr (inl refl)) loopback_parsed refl

abbrev items : List Number
items = integer (pos 443) ∷ integer (pos 70000) ∷ other ∷ integer (pos 22) ∷ integer (pos 443) ∷ []

abbrev ports : List ℕ
ports = 22 ∷ 443 ∷ []

normalized : normalize_discovery_ports (some items) ≡ ok ports
unfolding normalize_discovery_ports ascending_set ascending add_all add
normalized = refl
