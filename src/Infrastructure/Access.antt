-- ===== src/Infrastructure/Access.antt =====
-- apps/api/src/infrastructure/infrastructure-access.service.ts: rules on a site, a building or a
-- room, where the nearest scope that has rules decides.
pub mod Rules
pub mod Rooms
use management_app.Base.{
  ◌≡◌, String, Bool, true, false, not, ◌&&◌, ◌||◌, Option, none, some, List, [], ◌∷◌, map, ◌==◌,
  filter, find, any, is_empty, if◌then◌else◌, Result, ok, err, ◌>>=◌, ◌>>◌, or_throw,
}
use management_app.Base.HttpError.{HttpError, not_found, forbidden}
use management_app.Access.{
  User, ScopedAction, read, create, update, delete, admin, has_role, has_application_role,
  can_read_scoped, can_manage_physical, can_manage_device,
}
use management_app.Collections.Texts.{includes, unique}
use management_app.Infrastructure.Store.{
  ScopeType, site, building, room, Rule, Membership, BuildingRow, RoomRow, RackRow, DeviceRow,
  InterfaceRow, Store,
}

-- `'PHYSICAL' | 'DEVICE'` with the type of the device.
pub data Kind : Type 0 where
  physical : Kind
  device : Option String → Kind

abbrev pub action_eq : ScopedAction → ScopedAction → Bool
action_eq read read = true
action_eq create create = true
action_eq update update = true
action_eq delete delete = true
action_eq _ _ = false

abbrev pub scope_eq : ScopeType → ScopeType → Bool
scope_eq site site = true
scope_eq building building = true
scope_eq room room = true
scope_eq _ _ = false

abbrev pub candidates : List Rule → ScopedAction → List Rule
candidates rules action =
    filter (λ (r : Rule). action_eq action read || action_eq r.permission action) rules

-- `null`, here `none`, is every group.
unfoldable pub group_ids : Store → User → String → Option (List String)
group_ids db user site_id =
    if has_role user admin
    then none
    else if not (has_application_role user)
    then some []
    else some (
        map (λ (m : Membership). m.group_id)
          (filter (λ (m : Membership). includes site_id m.site_ids) (db.memberships user.id)))

unfoldable pub allows : List Rule → ScopedAction → Option (List String) → Bool
allows rules action none = true
allows rules action (some groups) =
    any (λ (r : Rule). includes r.group_id groups) (candidates rules action)

unfoldable pub denied : {A : Type 0} → ScopedAction → Result HttpError A
denied read = err (not_found "INFRASTRUCTURE_RESOURCE_NOT_FOUND")
denied _ = err (forbidden "INFRASTRUCTURE_SCOPE_FORBIDDEN")

-- `scopeType: type, scopeId: id`
abbrev pub in_scope : ScopeType → String → Rule → Bool
in_scope type id r = scope_eq r.scope_type type && r.scope_id == id

-- The `OR` of the query, where an id that is not given adds nothing.
abbrev pub in_optional_scope : ScopeType → Option String → Rule → Bool
in_optional_scope type none r = false
in_optional_scope type (some id) r = not (id == "") && in_scope type id r

abbrev pub is_given : Option String → Bool
is_given none = false
is_given (some id) = not (id == "")

-- `first.length ? first : second`
abbrev pub nearest : List Rule → List Rule → List Rule
nearest [] second = second
nearest (r ∷ rs) second = r ∷ rs

abbrev pub queried_rules : Store → String → Option String → Option String → List Rule
queried_rules db site_id building_id room_id =
    filter
      (λ r.
        in_scope site site_id r
        || (in_optional_scope building building_id r || in_optional_scope room room_id r))
      db.rules

abbrev pub of_type : ScopeType → List Rule → List Rule
of_type type = filter (λ (r : Rule). scope_eq r.scope_type type)

unfoldable pub site_rules : Store → String → List Rule
site_rules db site_id = of_type site (queried_rules db site_id none none)

-- `rules(…).effective`
unfoldable pub effective_rules : Store → String → Option String → Option String → List Rule
effective_rules db site_id building_id room_id =
    let all = queried_rules db site_id building_id room_id in
    nearest (if is_given room_id then of_type room all else [])
      (nearest (if is_given building_id then of_type building all else []) (of_type site all))

unfoldable pub role_allows : User → ScopedAction → Kind → Bool
role_allows user action physical = can_manage_physical user action
role_allows user action (device type) = can_manage_device user action type

-- The rooms of one site, or all of them.
abbrev pub rooms_of : Store → Option String → List RoomRow
rooms_of db none = db.rooms
rooms_of db (some site_id) =
    if site_id == "" then db.rooms else filter (λ (r : RoomRow). r.site_id == site_id) db.rooms

-- The memberships in a group of one of the sites, with those of its sites.
abbrev pub memberships_in : Store → User → List String → List Membership
memberships_in db user site_ids =
    map (λ (m : Membership). record m { site_ids = filter (λ s. includes s site_ids) m.site_ids })
      (filter (λ (m : Membership). any (λ s. includes s site_ids) m.site_ids)
        (db.memberships user.id))

-- `groupsBySite.get(siteId) ?? []`
abbrev pub groups_by_site : List String → List Membership → String → List String
groups_by_site site_ids memberships site_id =
    if includes site_id site_ids
    then map (λ (m : Membership). m.group_id)
        (filter (λ (m : Membership). any (λ s. s == site_id) m.site_ids) memberships)
    else []

-- The rules of the sites, buildings and rooms that are listed.
abbrev pub rules_in : Store → List String → List String → List String → List Rule
rules_in db site_ids building_ids room_ids =
    filter
      (λ (r : Rule).
        scope_eq r.scope_type site && includes r.scope_id site_ids
        || (scope_eq r.scope_type building && includes r.scope_id building_ids
            || scope_eq r.scope_type room && includes r.scope_id room_ids))
      db.rules

abbrev pub site_ids_of : List RoomRow → List String
site_ids_of rooms = unique (map (λ (r : RoomRow). r.site_id) rooms)

abbrev pub building_ids_of : List RoomRow → List String
building_ids_of rooms = unique (map (λ (r : RoomRow). r.building_id) rooms)

abbrev pub room_ids_of : List RoomRow → List String
room_ids_of rooms = map (λ (r : RoomRow). r.id) rooms

-- The test of `visibleRoomIds` on one room, with what the three queries have answered.
unfoldable pub is_visible : List String → List Membership → List Rule → RoomRow → Bool
is_visible site_ids memberships rules r =
    allows
      (nearest (filter (in_scope room r.id) rules) (
        nearest (filter (in_scope building r.building_id) rules)
          (filter (in_scope site r.site_id) rules)))
      read (some (groups_by_site site_ids memberships r.site_id))

unfoldable pub visible_rooms : Store → User → Option String → List RoomRow
visible_rooms db user site_id =
    let rooms = rooms_of db site_id in
    let site_ids = site_ids_of rooms in
    if has_role user admin
    then rooms
    else if not (can_read_scoped user)
    then []
    else filter
        (is_visible site_ids (memberships_in db user site_ids)
          (rules_in db site_ids (building_ids_of rooms) (room_ids_of rooms)))
        rooms

unfoldable pub visible_room_ids : Store → User → Option String → List String
visible_room_ids db user site_id = room_ids_of (visible_rooms db user site_id)

unfoldable pub assert_room : Store → User → ScopedAction → String → Kind → Result HttpError RoomRow
assert_room db user action room_id kind = do
  found ←
      or_throw (find (λ (r : RoomRow). r.id == room_id) db.rooms) (not_found "Sala não encontrada")
  let groups = group_ids db user found.site_id
  let effective = effective_rules db found.site_id (some found.building_id) (some found.id)
  (if role_allows user action kind && allows effective action groups
      then ok found
      else if not (allows effective read groups)
      then denied read
      else denied action)
