-- ===== src/Infrastructure/Entities.antt =====
-- The other checks of infrastructure-access.service.ts: sites and buildings, which are visible also
-- for what is in them, and racks, devices and interfaces, which go by the room or the site.
pub mod Buildings
use management_app.Base.{
  ◌≡◌, String, Bool, true, false, not, ◌&&◌, ◌||◌, Option, none, some, List, [], ◌∷◌, ◌++◌, map,
  ◌==◌, filter, find, any, is_empty, if◌then◌else◌, Result, ok, err, ◌>>=◌, ◌>>◌, guard, or_throw,
}
use management_app.Base.HttpError.{HttpError, not_found, forbidden}
use management_app.Access.{
  User, ScopedAction, read, create, update, delete, admin, has_role, can_read_scoped,
}
use management_app.Collections.Texts.{includes, unique}
use management_app.Infrastructure.Store.{
  ScopeType, site, building, room, Rule, Membership, BuildingRow, RoomRow, RackRow, DeviceRow,
  InterfaceRow, Store,
}
use management_app.Infrastructure.Access.{
  Kind, physical, device, action_eq, scope_eq, in_scope, nearest, of_type, group_ids, allows,
  denied, site_rules, effective_rules, role_allows, visible_room_ids, assert_room,
}

abbrev pub buildings_of : Store → String → List BuildingRow
buildings_of db site_id = filter (λ (b : BuildingRow). b.site_id == site_id) db.buildings

-- The rules of `visibleBuildingIds`: those of the site and of its buildings.
abbrev pub site_and_building_rules : Store → String → List Rule
site_and_building_rules db site_id =
    filter
      (λ (r : Rule).
        in_scope site site_id r
        || scope_eq r.scope_type building
          && includes r.scope_id (map (λ (b : BuildingRow). b.id) (buildings_of db site_id)))
      db.rules

-- `building.rooms.some((room) => roomIds.has(room.id))`
abbrev pub has_visible_room : Store → List String → BuildingRow → Bool
has_visible_room db room_ids b =
    any (λ (r : RoomRow). includes r.id room_ids)
      (filter (λ (r : RoomRow). r.building_id == b.id) db.rooms)

unfoldable pub is_visible_building : Store → User → String → BuildingRow → Bool
is_visible_building db user site_id b =
    let rules = site_and_building_rules db site_id in
    allows (nearest (filter (in_scope building b.id) rules) (of_type site rules)) read
      (group_ids db user site_id)
    || has_visible_room db (visible_room_ids db user (some site_id)) b

unfoldable pub visible_buildings : Store → User → String → List BuildingRow
visible_buildings db user site_id =
    if has_role user admin
    then buildings_of db site_id
    else if not (can_read_scoped user)
    then []
    else filter (is_visible_building db user site_id) (buildings_of db site_id)

-- The sites whose devices without a rack are shown.
unfoldable pub visible_unplaced_site_ids : Store → User → Option String → List String
visible_unplaced_site_ids db user site_id =
    if has_role user admin
    then elim site_id [ none ↦ db.sites | some id ↦ if id == "" then db.sites else id ∷ [] ]
    else if not (can_read_scoped user)
    then []
    else filter
        (λ id. allows (filter (in_scope site id) db.rules) read (
          some (
            map (λ (m : Membership). m.group_id)
              (filter (λ (m : Membership). includes id (assigned m)) (db.memberships user.id)))))
        (unique (ids_of (db.memberships user.id)))
  where
    assigned : Membership → List String
    assigned m = elim site_id [
      | none ↦ m.site_ids
      | some id ↦ if id == "" then m.site_ids else filter (λ s. s == id) m.site_ids
    ]

    ids_of : List Membership → List String
    ids_of [] = []
    ids_of (m ∷ ms) = assigned m ++ ids_of ms

-- The end of `assertSite` and of `assertBuilding`, where the rules do not allow the action.
abbrev pub answer_visible : {A : Type 0} → User → ScopedAction → Bool → A → Result HttpError A
answer_visible user action visible found =
    if visible && action_eq action read && can_read_scoped user
    then ok found
    else if not visible
    then denied read
    else denied action

unfoldable pub assert_site : Store → User → ScopedAction → String → Kind → Result HttpError String
assert_site db user action site_id kind = do
  found ← or_throw (find (λ s. s == site_id) db.sites) (not_found "Site não encontrado")
  let groups = group_ids db user site_id
  let rules = site_rules db site_id
  (if role_allows user action kind && allows rules action groups
      then ok site_id
      else answer_visible user action
          (allows rules read groups || not (is_empty (visible_buildings db user site_id))) site_id)

-- A room of the building that is visible.
abbrev pub has_visible_child : Store → User → BuildingRow → Bool
has_visible_child db user b =
    any
      (λ (r : RoomRow).
        includes r.id (visible_room_ids db user (some b.site_id)) && r.building_id == b.id)
      db.rooms

unfoldable pub assert_building :
    Store → User → ScopedAction → String → Kind → Result HttpError BuildingRow
assert_building db user action building_id kind = do
  b ←
      or_throw (find (λ (b : BuildingRow). b.id == building_id) db.buildings)
        (not_found "Edifício não encontrado")
  let groups = group_ids db user b.site_id
  let effective = effective_rules db b.site_id (some b.id) none
  (if role_allows user action kind && allows effective action groups
      then ok b
      else answer_visible user action (allows effective read groups || has_visible_child db user b)
          b)

unfoldable pub assert_rack : Store → User → ScopedAction → String → Kind → Result HttpError RackRow
assert_rack db user action rack_id kind = do
  rack ←
      or_throw (find (λ (r : RackRow). r.id == rack_id) db.racks)
        (not_found "Bastidor não encontrado")
  found ← assert_room db user action rack.room_id kind
  ok rack

-- A device goes by the room of its rack, else by its site; one that has neither is for
-- administrators.
abbrev pub assert_unplaced : User → ScopedAction → Result HttpError (Unit {0})
assert_unplaced user action = if has_role user admin then ok tt else denied action

abbrev pub assert_place : Store → User → ScopedAction → DeviceRow → Result HttpError (Unit {0})
assert_place db user action d = elim d.rack_room_id [
  | some room_id ↦ assert_room db user action room_id (device d.type) >>= λ _. ok tt
  | none ↦ elim d.site_id [
    | some site_id ↦
        if site_id == ""
        then assert_unplaced user action
        else assert_site db user action site_id (device d.type) >>= λ _. ok tt
    | none ↦ assert_unplaced user action
  ]
]

unfoldable pub assert_device : Store → User → ScopedAction → String → Result HttpError DeviceRow
assert_device db user action device_id = do
  d ←
      or_throw (find (λ (d : DeviceRow). d.id == device_id) db.devices)
        (not_found "Equipamento não encontrado")
  assert_place db user action d
  ok d

unfoldable pub assert_interface :
    Store → User → ScopedAction → String → Result HttpError InterfaceRow
assert_interface db user action interface_id = do
  i ←
      or_throw (find (λ (i : InterfaceRow). i.id == interface_id) db.interfaces)
        (not_found "Interface não encontrada")
  d ← assert_device db user action i.device_id
  ok i
