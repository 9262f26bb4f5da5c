-- ===== src/Infrastructure/Tests.antt =====
-- A site with one building and two rooms. The group has a rule on the site, and another group one
-- on the second room, which therefore no longer goes by the site.
use management_app.Base.{
  ◌≡◌, refl, ◌⊎◌, inl, inr, ◌↔◌, true, some, [], ◌∷◌, arith, eq_iff, Elem, ok,
}
use management_app.Access.{User, systems_operator, admin, has_role, read, update}
use management_app.Infrastructure.Store.{Rule, site, room, Membership, BuildingRow, RoomRow, Store}
use management_app.Infrastructure.Access.{physical, role_allows, visible_rooms, assert_room}
use management_app.Infrastructure.Access.Rooms.{IsStored, HasPermission, assert_room_iff}
use management_app.Infrastructure.Access.Rooms.Listing.{visible_rooms_iff}
use management_app.Infrastructure.Entities.Buildings.{IsStoredBuilding}

abbrev operator : User
operator = record { id = "u1"; roles = systems_operator ∷ [] }

abbrev on_site : Rule
on_site = record { group_id = "g1"; scope_type = site; scope_id = "s1"; permission = update }

abbrev on_second_room : Rule
on_second_room = record { group_id = "g2"; scope_type = room; scope_id = "r2"; permission = update }

abbrev house : BuildingRow
house = record { id = "b1"; site_id = "s1" }

abbrev first_room : RoomRow
first_room = record { id = "r1"; building_id = "b1"; site_id = "s1" }

abbrev second_room : RoomRow
second_room = record { id = "r2"; building_id = "b1"; site_id = "s1" }

abbrev in_group : Membership
in_group = record { group_id = "g1"; site_ids = "s1" ∷ [] }

abbrev db : Store
db = record {
  memberships = λ u. in_group ∷ [];
  rules = on_site ∷ on_second_room ∷ [];
  sites = "s1" ∷ [];
  buildings = house ∷ [];
  rooms = first_room ∷ second_room ∷ [];
  racks = [];
  devices = [];
  interfaces = [];
}

first_room-IsStored : IsStored db first_room
first_room-IsStored = record {
  found = refl;
  id_given = ground (arith, eq_iff "r1" "");
  building_given = ground (arith, eq_iff "b1" "");
}

second_room-IsStored : IsStored db second_room
second_room-IsStored = record {
  found = refl;
  id_given = ground (arith, eq_iff "r2" "");
  building_given = ground (arith, eq_iff "b1" "");
}

house-IsStoredBuilding : IsStoredBuilding db house
house-IsStoredBuilding = record { found = refl; id_given = ground (arith, eq_iff "b1" "") }

assert_room_iff_example : (assert_room db operator update "r1" physical ≡ ok first_room) ↔ (
    (role_allows operator update physical ≡ true)
    × ((has_role operator admin ≡ true) ⊎ HasPermission db operator update first_room))
assert_room_iff_example = assert_room_iff db operator update first_room physical first_room-IsStored

visible_rooms_iff_example :
    Elem second_room (visible_rooms db operator (some "s1"))
    ↔ (assert_room db operator read "r2" physical ≡ ok second_room)
visible_rooms_iff_example =
    visible_rooms_iff db operator (some "s1") second_room (inr (inl refl)) second_room-IsStored
