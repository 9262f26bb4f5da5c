-- ===== src/Infrastructure/Store.antt =====
-- The tables that infrastructure-access.service.ts reads, as lists of rows. A query by id is the
-- first row with that id; a query with a `where` is a filter.
use management_app.Base.{String, Option, List}
use management_app.Access.{ScopedAction}

pub data ScopeType : Type 0 where
  site building room : ScopeType

-- A row of `InfrastructurePermission`.
pub record Rule : Type 0 where
  pub group_id : String
  pub scope_type : ScopeType
  pub scope_id : String
  pub permission : ScopedAction

-- A user's part in a group, with the sites that the group is assigned to.
pub record Membership : Type 0 where
  pub group_id : String
  pub site_ids : List String

pub record BuildingRow : Type 0 where
  pub id : String
  pub site_id : String

-- A room, with the site of its building.
pub record RoomRow : Type 0 where
  pub id : String
  pub building_id : String
  pub site_id : String

pub record RackRow : Type 0 where
  pub id : String
  pub room_id : String

-- A device, with the room of its rack.
pub record DeviceRow : Type 0 where
  pub id : String
  pub type : Option String
  pub site_id : Option String
  pub rack_room_id : Option String

pub record InterfaceRow : Type 0 where
  pub id : String
  pub device_id : String

pub record Store : Type 0 where
  pub memberships : String → List Membership
  pub rules : List Rule
  pub sites : List String
  pub buildings : List BuildingRow
  pub rooms : List RoomRow
  pub racks : List RackRow
  pub devices : List DeviceRow
  pub interfaces : List InterfaceRow
