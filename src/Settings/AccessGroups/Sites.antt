-- ===== src/Settings/AccessGroups/Sites.antt =====
-- The assignments of a group to sites, and the rules on infrastructure.
use management_app.Base.{
  String, Bool, true, false, not, ◌&&◌, Option, none, some, List, [], ◌∷◌, ◌++◌, map, filter, any,
  find, ◌==◌, if◌then◌else◌, Result, ok, ◌>>=◌, ◌>>◌, guard, or_throw,
}
use management_app.Base.HttpError.{HttpError, bad_request, not_found, conflict}
use management_app.Collections.Texts.{includes, unique}
use management_app.Settings.AccessGroups.{
  Link, Permission, ScopeType, site, building, room, Scope, Rule, Building, Room, Places, State,
  is_group, is_link, is_permission_of,
}

-- `upsert` of an assignment.
abbrev pub with_link : String → String → List Link → List Link
with_link group at links =
    if any (is_link group at) links
    then links
    else links ++ record { group_id = group; site_id = at } ∷ []

-- `createMany` with `skipDuplicates`.
unfoldable pub add_permissions : String → String → List String → List Permission → List Permission
add_permissions group at [] table = table
add_permissions group at (p ∷ ps) table =
    let rest = add_permissions group at ps in
    if any (λ r. is_permission_of group at r && r.permission == p) table
    then rest table
    else rest (table ++ record { group_id = group; site_id = at; permission = p } ∷ [])

abbrev pub is_dropped : String → String → List String → Permission → Bool
is_dropped group at kept p = is_permission_of group at p && not (includes p.permission kept)

unfoldable pub assign_site : Places → String → String → List String → State → Result HttpError State
unfolding add_permissions
assign_site db group at permissions s = do
  guard (includes at db.sites) (not_found "Site não encontrado")
  guard (any (is_group group) s.groups) (not_found "Grupo de acesso não encontrado")
  let normalized = unique permissions
  ok (record s {
    links = with_link group at s.links;
    permissions =
        add_permissions group at normalized
          (filter (λ p. not (is_dropped group at normalized p)) s.permissions);
  })

abbrev pub building_ids : Places → String → List String
building_ids db at =
    map (λ (b : Building). b.id) (filter (λ (b : Building). b.site_id == at) db.buildings)

abbrev pub room_ids : Places → String → List String
room_ids db at =
    map (λ (r : Room). r.id)
      (filter (λ (r : Room). includes r.building_id (building_ids db at)) db.rooms)

-- The rule stands on the site, or on a building or room of it.
abbrev pub is_in_site : Places → String → Scope → Bool
is_in_site db at c = elim c.scope_type [
  | site ↦ c.scope_id == at
  | building ↦ includes c.scope_id (building_ids db at)
  | room ↦ includes c.scope_id (room_ids db at)
]

unfoldable pub remove_site : Places → String → String → State → Result HttpError State
remove_site db group at s = do
  guard (not (any (λ (r : Rule). r.scope.group_id == group && is_in_site db at r.scope) s.rules))
      (conflict "ACCESS_GROUP_SITE_IN_USE")
  guard (any (is_link group at) s.links) (not_found "Associação do grupo ao Site não encontrada")
  ok (record s {
    links = filter (λ l. not (is_link group at l)) s.links;
    permissions = filter (λ p. not (is_permission_of group at p)) s.permissions;
  })

-- `scopeSite`
abbrev pub building_site : Places → String → Option String
building_site db id = elim (find (λ (b : Building). b.id == id) db.buildings) [
  | none ↦ none
  | some b ↦ some b.site_id
]

unfoldable pub scope_site : Places → Scope → Option String
scope_site db c = elim c.scope_type [
  | site ↦ find (λ i. i == c.scope_id) db.sites
  | building ↦ building_site db c.scope_id
  | room ↦ elim (find (λ (r : Room). r.id == c.scope_id) db.rooms) [
    | none ↦ none
    | some r ↦ building_site db r.building_id
  ]
]

unfoldable pub validate_permission : Places → Scope → State → Result HttpError (Unit {0})
unfolding scope_site
validate_permission db c s = do
  at ← or_throw (scope_site db c) (not_found "Scope de infraestrutura não encontrado")
  guard (any (is_link c.group_id at) s.links) (bad_request "INFRASTRUCTURE_SCOPE_SITE_MISMATCH")

abbrev pub same_type : ScopeType → ScopeType → Bool
same_type site site = true
same_type building building = true
same_type room room = true
same_type _ _ = false

-- The unique index on the rules.
abbrev pub same_scope : Scope → Scope → Bool
same_scope c d =
    c.group_id == d.group_id
    && same_type c.scope_type d.scope_type
    && c.scope_id == d.scope_id
    && c.permission == d.permission

unfoldable pub create_permission : Places → String → Scope → State → Result HttpError State
unfolding validate_permission
create_permission db id c s = do
  valid ← validate_permission db c s
  guard (not (any (λ (r : Rule). same_scope r.scope c) s.rules))
      (conflict "Esta permissão já está atribuída.")
  ok (record s { rules = s.rules ++ record { id = id; scope = c } ∷ [] })

unfoldable pub update_permission : Places → String → Scope → State → Result HttpError State
unfolding validate_permission
update_permission db id c s = do
  valid ← validate_permission db c s
  guard
      (any (λ (r : Rule). r.id == id) s.rules
        && not (any (λ (r : Rule). same_scope r.scope c && not (r.id == id)) s.rules))
      (not_found "Permissão de infraestrutura não encontrada")
  ok (record s {
    rules = map (λ (r : Rule). if r.id == id then record r { scope = c } else r) s.rules;
  })

unfoldable pub delete_permission : String → State → Result HttpError State
delete_permission id s = do
  guard (any (λ (r : Rule). r.id == id) s.rules)
      (not_found "Permissão de infraestrutura não encontrada")
  ok (record s { rules = filter (λ (r : Rule). not (r.id == id)) s.rules })
