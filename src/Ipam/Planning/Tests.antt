-- ===== src/Ipam/Planning/Tests.antt =====
-- A network of six hosts with three addresses taken.
use management_app.Base.{ℕ, ◌≡◌, refl, ◌≤◌, ◌↔◌, List, [], ◌∷◌, Elem, ok}
use management_app.Base.Number.{other}
use management_app.Base.Sort.{sort}
use management_app.Collections.Ascending.{ascending_set, ascending, add_all, add}
use management_app.Text.{codes, trim, split, number, decimal}
use management_app.Discovery.Networks.{Platform}
use management_app.Ipam.Planning.{
  Ipv4Cidr, ipv4_cidr, ipv4_number, octets, numbers_of, AddressRow, Gap, usable_gaps, SubnetPlan,
  first_usable, last_usable, calculate_ipv4_subnet_plan,
}
use management_app.Ipam.Planning.Gaps.{InGap, plan_gaps_iff}

abbrev js : Platform
js = record { is_ip = λ t. 4; other_forms = λ t. other }

abbrev info : Ipv4Cidr
info = record { prefix = 29; network = 3221225984; broadcast = 3221225991 }

abbrev rows : List AddressRow
rows =
    record { address = codes "192.0.2.5"; state = "EXCLUDED" }
    ∷ record { address = codes "192.0.2.3"; state = "FREE" }
    ∷ record { address = codes "192.0.2.2"; state = "RESERVED" }
    ∷ record { address = codes "192.0.2.4"; state = "OCCUPIED" }
    ∷ []

abbrev gap : ℕ → Gap
gap a = record { start = a; end = a; count = 1 }

abbrev plan : SubnetPlan
plan = record {
  network = 3221225984;
  broadcast = 3221225991;
  usable_total = 6;
  unavailable_addresses = 3221225986 ∷ 3221225988 ∷ 3221225989 ∷ [];
  free = 3;
  gaps = gap 3221225985 ∷ gap 3221225987 ∷ gap 3221225990 ∷ [];
}

is_read : ipv4_cidr js (codes "192.0.2.0/29") ≡ ok info
unfolding ipv4_cidr ipv4_number octets trim split number decimal
is_read = refl

planned : calculate_ipv4_subnet_plan js (codes "192.0.2.0/29") rows ≡ ok plan
unfolding calculate_ipv4_subnet_plan ipv4_cidr ipv4_number octets numbers_of usable_gaps
    ascending_set ascending add_all add sort trim split number decimal
planned = refl

plan_gaps_iff_example : InGap 3221225987 plan.gaps ↔ (
    (first_usable info ≤ 3221225987)
    × (3221225987 ≤ last_usable info)
    × (¬ Elem 3221225987 plan.unavailable_addresses))
plan_gaps_iff_example =
    plan_gaps_iff js (codes "192.0.2.0/29") rows info plan 3221225987 is_read planned
