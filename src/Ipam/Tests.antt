-- ===== src/Ipam/Tests.antt =====
-- Two sites, an operator of the first one, and what the database tells about them.
use management_app.Base.{◌≡◌, refl, ◌⊎◌, ◌↔◌, ◌==◌, none, some, [], ◌∷◌, if◌then◌else◌, ok, err}
use management_app.Base.HttpError.{not_found, forbidden}
use management_app.Access.{
  User, network_operator, scoped, read, update, discover, has_role, is_admin, has_some_role,
  has_application_role, can_use_ipam,
}
use management_app.Collections.Texts.{unique}
use management_app.Ipam.Access.{
  Context, Queries, Assignment, Subnet, IpAddress, Host, assert_context, no_context, subnet_context,
  grants, site_ids,
}
use management_app.Ipam.Decisions.{MayAct, assert_context_iff, assert_context_refusal}
use management_app.Ipam.Hosts.{assert_host, any_visible, all_pass}
use management_app.Ipam.SubnetPlacement.{Placement, assert_subnet_placement}

abbrev operator : User
operator = record { id = "u1"; roles = network_operator ∷ [] }

abbrev at_north : Assignment
at_north = record { site_id = "north"; permissions = "UPDATE" ∷ [] }

abbrev north_net : Subnet
north_net = record { id = "n1"; site_id = some "north"; vlan_id = none; vrf_id = none }

abbrev south_net : Subnet
south_net = record { id = "n2"; site_id = some "south"; vlan_id = none; vrf_id = none }

abbrev north_ip : IpAddress
north_ip = record { id = "i1"; subnet = north_net }

abbrev server : Host
server = record { id = "h1"; ip_addresses = north_ip ∷ [] }

abbrev db : Queries
db = record {
  memberships = λ u. (at_north ∷ []) ∷ [];
  site = λ id. if id == "north" then some "north" else none;
  vlan = λ id. none;
  vrf = λ id. none;
  subnet = λ id. if id == "n1" then some north_net else some south_net;
  ip = λ id. some north_ip;
  host = λ id. some server;
}

updates_north : assert_context db operator (scoped update) (subnet_context north_net) ≡ ok tt
unfolding assert_context grants site_ids unique has_role has_some_role has_application_role
    can_use_ipam is_admin
updates_north = refl

assert_context_iff_example :
    (assert_context db operator (scoped update) (subnet_context north_net) ≡ ok tt)
    ↔ MayAct db operator (scoped update) (subnet_context north_net)
assert_context_iff_example =
    assert_context_iff db operator (scoped update) (subnet_context north_net)

assert_context_refusal_example :
    (assert_context db operator discover (subnet_context north_net) ≡ ok tt)
    ⊎ ((assert_context db operator discover (subnet_context north_net)
          ≡ err (forbidden "IPAM_SCOPE_FORBIDDEN"))
        × (assert_context db operator (scoped read) (subnet_context north_net) ≡ ok tt))
    ⊎ ((assert_context db operator discover (subnet_context north_net)
          ≡ err (not_found "IPAM_RESOURCE_NOT_FOUND"))
        × (assert_context db operator (scoped read) (subnet_context north_net)
            ≡ err (not_found "IPAM_RESOURCE_NOT_FOUND")))
assert_context_refusal_example =
    assert_context_refusal db operator discover (subnet_context north_net)

-- Discovery is not granted in the north, reading is.
is_refused : assert_host db operator discover "h1" ≡ err (forbidden "IPAM_SCOPE_FORBIDDEN")
unfolding assert_host any_visible all_pass assert_context grants site_ids unique has_role
    has_some_role has_application_role can_use_ipam is_admin
is_refused = refl

-- A subnet of the north below the subnet "n1".
abbrev below : Placement
below = record {
  site_id = some "north";
  vlan_id = none;
  vrf_id = none;
  parent_subnet_id = some "n1";
}

abbrev below_context : Context
below_context = record no_context { site_id = some "north"; subnet_id = some "n1" }

is_placed : assert_subnet_placement db operator (scoped update) below ≡ ok below_context
unfolding assert_subnet_placement assert_context grants site_ids unique has_role has_some_role
    has_application_role can_use_ipam is_admin
is_placed = refl

-- There is no VLAN "v".
abbrev without_vlan : Placement
without_vlan = record below { vlan_id = some "v" }
