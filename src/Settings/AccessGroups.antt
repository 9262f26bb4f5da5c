-- ===== src/Settings/AccessGroups.antt =====
-- access-group.service.ts, with `createPermission`, `updatePermission` and `deletePermission` of
-- infrastructure-access.service.ts, which write to tables that belong together: the groups, their members,
-- the sites they are assigned to with the permissions there, and the rules on infrastructure.
pub mod Sites
pub mod Scopes
pub mod Kept
pub mod Assigned
pub mod Linked
pub mod Steps
mod Tests
use management_app.Base.{
  ℕ, String, Bool, true, false, not, ◌&&◌, ◌||◌, Option, none, some, List, [], ◌∷◌, ◌++◌, map,
  filter, any, all, find, is_empty, length, eqb, ◌==◌, if◌then◌else◌, Result, ok, err, ◌>>=◌, ◌>>◌,
  guard, or_throw,
}
use management_app.Base.HttpError.{HttpError, bad_request, not_found, conflict}
use management_app.Collections.Texts.{includes, unique}
use management_app.Text.{Text, trim}
use management_app.Text.Sets.{same}

pub record Group : Type 0 where
  pub id : String
  pub name : Text
  pub description : Option Text

pub record Member : Type 0 where
  pub group_id : String
  pub user_id : String

-- `AccessGroupSite`
pub record Link : Type 0 where
  pub group_id : String
  pub site_id : String

-- `AccessGroupSitePermission`
pub record Permission : Type 0 where
  pub group_id : String
  pub site_id : String
  pub permission : String

pub data ScopeType : Type 0 where
  site building room : ScopeType

-- `CreateInfrastructurePermissionDto`
pub record Scope : Type 0 where
  pub group_id : String
  pub scope_type : ScopeType
  pub scope_id : String
  pub permission : String

-- `InfrastructurePermission`
pub record Rule : Type 0 where
  pub id : String
  pub scope : Scope

pub record Building : Type 0 where
  pub id : String
  pub site_id : String

pub record Room : Type 0 where
  pub id : String
  pub building_id : String

-- The tables that are only read here. `insensitive` is how the database compares two names without
-- regard to case.
pub record Places : Type 0 where
  pub sites : List String
  pub users : List String
  pub buildings : List Building
  pub rooms : List Room
  pub insensitive : Text → Text → Bool

pub record State : Type 0 where
  pub groups : List Group
  pub members : List Member
  pub links : List Link
  pub permissions : List Permission
  pub rules : List Rule

abbrev pub is_group : String → Group → Bool
is_group id g = g.id == id

abbrev pub is_link : String → String → Link → Bool
is_link group at l = l.group_id == group && l.site_id == at

abbrev pub is_permission_of : String → String → Permission → Bool
is_permission_of group at p = p.group_id == group && p.site_id == at

abbrev pub is_member : String → String → Member → Bool
is_member group user m = m.group_id == group && m.user_id == user

-- `assertUnique`
abbrev pub is_other : Option String → Group → Bool
is_other none g = true
is_other (some id) g = not (g.id == id)

unfoldable pub assert_unique : Places → Text → Option String → State → Result HttpError (Unit {0})
unfolding trim
assert_unique db name exclude_id s =
    guard (not (any (λ g. db.insensitive g.name (trim name) && is_other exclude_id g) s.groups))
      (conflict "Já existe um grupo com esse nome na Organização.")

abbrev pub trimmed : Option Text → Option Text
trimmed none = none
trimmed (some t) = if is_empty (trim t) then none else some (trim t)

-- The unique index on the name, and the foreign keys of the assignments.
abbrev pub has_name : Text → Option String → Group → Bool
has_name name except g = same g.name name && is_other except g

unfoldable pub create :
    Places → String → Text → Option Text → List String → State → Result HttpError State
unfolding assert_unique trim
create db id name description site_ids s = do
  free ← assert_unique db name none s
  let ids = unique site_ids
  guard (eqb (length (filter (λ x. includes x ids) db.sites)) (length ids))
      (not_found "Um ou mais Sites não existem")
  guard (not (any (has_name (trim name) none) s.groups) && all (λ i. includes i db.sites) ids)
      (conflict "Já existe um grupo com esse nome na Organização.")
  ok (record s {
    groups =
        s.groups ++ record { id = id; name = trim name; description = trimmed description } ∷ [];
    links = s.links ++ map (λ i. record { group_id = id; site_id = i }) ids;
  })

abbrev pub described : Text → Option Text → Group → Group
described name description g = record g { name = trim name; description = trimmed description }

unfoldable pub update : Places → String → Text → Option Text → State → Result HttpError State
unfolding assert_unique trim
update db id name description s = do
  guard (any (is_group id) s.groups) (not_found "Grupo de acesso não encontrado")
  free ← assert_unique db name (some id) s
  guard (not (any (has_name (trim name) (some id)) s.groups))
      (conflict "Não foi possível atualizar o grupo de acesso.")
  ok (record s {
    groups =
        map (λ (g : Group). if is_group id g then described name description g else g) s.groups;
  })

-- The rows that belong to the group go with it.
unfoldable pub remove : String → State → Result HttpError State
remove id s = do
  guard (any (is_group id) s.groups) (not_found "Grupo de acesso não encontrado")
  guard (not (any (λ (r : Rule). r.scope.group_id == id) s.rules)) (conflict "ACCESS_GROUP_IN_USE")
  ok (record {
    groups = filter (λ g. not (is_group id g)) s.groups;
    members = filter (λ (m : Member). not (m.group_id == id)) s.members;
    links = filter (λ (l : Link). not (l.group_id == id)) s.links;
    permissions = filter (λ (p : Permission). not (p.group_id == id)) s.permissions;
    rules = filter (λ (r : Rule). not (r.scope.group_id == id)) s.rules;
  })

unfoldable pub add_member : Places → String → String → State → Result HttpError State
add_member db group user s = do
  guard (any (is_group group) s.groups && includes user db.users)
      (not_found "Grupo ou utilizador não encontrado")
  ok (record s {
    members =
        if any (is_member group user) s.members
        then s.members
        else s.members ++ record { group_id = group; user_id = user } ∷ [];
  })

unfoldable pub remove_member : String → String → State → Result HttpError State
remove_member group user s = do
  guard (any (is_member group user) s.members) (not_found "Membro do grupo não encontrado")
  ok (record s { members = filter (λ m. not (is_member group user m)) s.members })
