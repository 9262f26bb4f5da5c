-- ===== src/Access.antt =====
-- apps/api/src/access/access-policy.service.ts and apps/api/src/auth/roles.ts: what each
-- application role may do.
pub mod Laws
mod Tests
use management_app.Base.{
  ◌≡◌, String, Bool, true, false, ◌&&◌, ◌||◌, Option, none, some, List, [], ◌∷◌, ◌==◌, any, eqb, ℕ,
  if◌then◌else◌,
}

pub data Role : Type 0 where
  admin network_operator systems_operator auditor read_only : Role

pub data ScopedAction : Type 0 where
  read create update delete : ScopedAction

pub data IpamAction : Type 0 where
  scoped : ScopedAction → IpamAction
  discover import : IpamAction

-- Of `AuthenticatedUser`, the fields that the access rules read.
pub record User : Type 0 where
  pub id : String
  pub roles : List Role

abbrev pub role_eq : Role → Role → Bool
role_eq admin admin = true
role_eq network_operator network_operator = true
role_eq systems_operator systems_operator = true
role_eq auditor auditor = true
role_eq read_only read_only = true
role_eq _ _ = false

-- `user.roles.includes(role)`
unfoldable pub has_role : User → Role → Bool
has_role user role = any (role_eq role) user.roles

-- `user.roles.some((role) => accepted.includes(role))`
unfoldable pub has_some_role : User → List Role → Bool
has_some_role user accepted = any (λ role. any (λ r. role_eq r role) accepted) user.roles

unfoldable pub is_admin : User → Bool
is_admin user = has_role user admin

unfoldable pub has_application_role : User → Bool
has_application_role user =
    has_some_role user (admin ∷ network_operator ∷ systems_operator ∷ auditor ∷ read_only ∷ [])

pub can_read_scoped : User → Bool
can_read_scoped user =
    is_admin user
    || has_some_role user (network_operator ∷ systems_operator ∷ auditor ∷ read_only ∷ [])

pub can_manage_physical : User → ScopedAction → Bool
can_manage_physical user read = can_read_scoped user
can_manage_physical user _ = is_admin user || has_role user systems_operator

-- `Boolean(type && ['SWITCH', 'ROUTER', 'FIREWALL'].includes(type))`
abbrev pub is_network_type : Option String → Bool
is_network_type none = false
is_network_type (some t) = t == "SWITCH" || t == "ROUTER" || t == "FIREWALL"

pub can_manage_device : User → ScopedAction → Option String → Bool
can_manage_device user read type = can_read_scoped user
can_manage_device user _ type =
    if is_admin user || has_role user systems_operator
    then true
    else has_role user network_operator && is_network_type type

unfoldable pub can_use_ipam : User → IpamAction → Bool
can_use_ipam user (scoped read) =
    if is_admin user then true else has_some_role user (network_operator ∷ auditor ∷ read_only ∷ [])
can_use_ipam user _ = if is_admin user then true else has_role user network_operator

pub record Capabilities : Type 0 where
  pub administer : Bool
  pub network : Bool
  pub systems : Bool
  pub audit : Bool
  pub read_only : Bool

pub capabilities : User → Capabilities
capabilities user = record {
  administer = is_admin user;
  network = is_admin user || has_role user network_operator;
  systems = is_admin user || has_role user systems_operator;
  audit = is_admin user || has_role user auditor;
  read_only = has_role user Role.read_only;
}
