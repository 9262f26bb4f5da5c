-- ===== src/Ipam/Access.antt =====
-- apps/api/src/ipam/ipam-access.service.ts: the checks of a user's rights on a site's IPAM data.
-- The database is read through `Queries`, one function for each Prisma query of the service.
use management_app.Base.{
  String, Bool, true, false, not, ◌&&◌, ◌||◌, Option, none, some, List, [], ◌∷◌, map, ◌==◌, filter,
  flat_map, if◌then◌else◌, Result, ok, err, ◌>>=◌, ◌>>◌, or_throw,
}
use management_app.Base.HttpError.{HttpError, not_found, forbidden}
use management_app.Access.{
  User, IpamAction, scoped, discover, import, read, create, update, delete, admin, has_role,
  has_application_role, can_use_ipam,
}
use management_app.Collections.Texts.{includes, unique}

pub record Context : Type 0 where
  pub site_id : Option String
  pub vrf_id : Option String
  pub vlan_id : Option String
  pub subnet_id : Option String

pub record Grant : Type 0 where
  pub site_id : String
  pub permission : String

-- An access group's part in one site.
pub record Assignment : Type 0 where
  pub site_id : String
  pub permissions : List String

pub record Subnet : Type 0 where
  pub id : String
  pub site_id : Option String
  pub vlan_id : Option String
  pub vrf_id : Option String

pub record Vlan : Type 0 where
  pub id : String
  pub site_id : Option String

pub record Vrf : Type 0 where
  pub id : String
  pub site_id : String

pub record IpAddress : Type 0 where
  pub id : String
  pub subnet : Subnet

pub record Host : Type 0 where
  pub id : String
  pub ip_addresses : List IpAddress

-- What the database answers. `memberships` gives the site assignments of each group that the user
-- is a member of.
pub record Queries : Type 0 where
  pub memberships : String → List (List Assignment)
  pub site : String → Option String
  pub vlan : String → Option Vlan
  pub vrf : String → Option Vrf
  pub subnet : String → Option Subnet
  pub ip : String → Option IpAddress
  pub host : String → Option Host

abbrev pub label : IpamAction → String
label (scoped read) = "READ"
label (scoped create) = "CREATE"
label (scoped update) = "UPDATE"
label (scoped delete) = "DELETE"
label discover = "DISCOVER"
label import = "IMPORT"

abbrev pub is_read : IpamAction → Bool
is_read (scoped read) = true
is_read _ = false

abbrev pub assignment_grants : Assignment → List Grant
assignment_grants a =
    record { site_id = a.site_id; permission = "SITE_MEMBERSHIP" }
    ∷ map (λ p. record { site_id = a.site_id; permission = p }) a.permissions

-- `null`, here `none`, is no restriction.
unfoldable pub grants : Queries → User → Option (List Grant)
grants db user =
    if has_role user admin
    then none
    else if not (has_application_role user)
    then some []
    else some (flat_map (flat_map assignment_grants) (db.memberships user.id))

-- The test of `siteIds`.
abbrev pub counts : IpamAction → Grant → Bool
counts action g =
    is_read action && not (g.permission == "SITE_MEMBERSHIP") || g.permission == label action

unfoldable pub site_ids : List Grant → IpamAction → List String
site_ids gs action = unique (map (λ (g : Grant). g.site_id) (filter (counts action) gs))

-- `siteId && ids.includes(siteId)`: an absent or empty id is in no list.
abbrev pub is_in : Option String → List String → Bool
is_in none ids = false
is_in (some s) ids = not (s == "") && includes s ids

unfoldable pub assert_context : Queries → User → IpamAction → Context → Result HttpError (Unit {0})
assert_context db user action context = elim (grants db user) [
  | none ↦ ok tt
  | some gs ↦
      if can_use_ipam user action && is_in context.site_id (site_ids gs action)
      then ok tt
      else if can_use_ipam user (scoped read) && is_in context.site_id (site_ids gs (scoped read))
      then err (forbidden "IPAM_SCOPE_FORBIDDEN")
      else err (not_found "IPAM_RESOURCE_NOT_FOUND")
]

abbrev pub no_context : Context
no_context = record { site_id = none; vrf_id = none; vlan_id = none; subnet_id = none }

abbrev pub subnet_context : Subnet → Context
subnet_context s = record {
  site_id = s.site_id;
  vrf_id = s.vrf_id;
  vlan_id = s.vlan_id;
  subnet_id = some s.id;
}

pub assert_subnet : Queries → User → IpamAction → String → Result HttpError Subnet
assert_subnet db user action id = do
  subnet ← or_throw (db.subnet id) (not_found "SUBNET_NOT_FOUND")
  assert_context db user action (subnet_context subnet)
  ok subnet

pub assert_vlan : Queries → User → IpamAction → String → Result HttpError Vlan
assert_vlan db user action id = do
  vlan ← or_throw (db.vlan id) (not_found "VLAN_NOT_FOUND")
  assert_context db user action
      (record no_context { site_id = vlan.site_id; vlan_id = some vlan.id })
  ok vlan

pub assert_vrf : Queries → User → IpamAction → String → Result HttpError Vrf
assert_vrf db user action id = do
  vrf ← or_throw (db.vrf id) (not_found "VRF_NOT_FOUND")
  assert_context db user action
      (record no_context { site_id = some vrf.site_id; vrf_id = some vrf.id })
  ok vrf

pub assert_site : Queries → User → IpamAction → String → Result HttpError String
assert_site db user action id = do
  found ← or_throw (db.site id) (not_found "SITE_NOT_FOUND")
  assert_context db user action (record no_context { site_id = some id })
  ok id

pub assert_ip : Queries → User → IpamAction → String → Result HttpError IpAddress
assert_ip db user action id = do
  ip ← or_throw (db.ip id) (not_found "IP_NOT_FOUND")
  assert_context db user action (subnet_context ip.subnet)
  ok ip
