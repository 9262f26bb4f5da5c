-- ===== src/Rack.antt =====
-- apps/api/src/infrastructure/rack-placement.ts, and the writes of `placeDevice` in
-- infrastructure.service.ts that carry a plan out. Unit numbers, sizes and rack heights are
-- integers (the `Int` columns of the database); the requested unit is any number.
pub mod Units
mod Tests
pub mod Import
pub mod Need
pub mod Bounds
pub mod Layout
pub mod Drop
pub mod Shape
pub mod Apply
pub mod Displace
use management_app.Base.{
  String, Bool, not, ◌&&◌, Option, none, some, List, [], ◌∷◌, ◌++◌, map, ◌==◌, filter, find, any,
  is_empty, flat_map, if◌then◌else◌, Result, ok, err, ◌>>=◌, ◌>>◌, guard, or_throw,
}
use management_app.Base.Int.{ℤ, pos, ◌+ℤ◌, ◌-ℤ◌, leb_ℤ, min_ℤ, max_ℤ}
use management_app.Base.Number.{Number, as_integer}
use management_app.Base.Sort.{sort}

pub record Device : Type 0 where
  pub id : String
  pub name : String
  pub rack_id : String
  pub rack_unit_start : ℤ
  pub rack_unit_size : ℤ

pub record Rack : Type 0 where
  pub id : String
  pub name : String
  pub units : ℤ
  pub devices : List Device

pub data Reason : Type 0 where
  moved displaced swapped : Reason

-- A device at its new place, with the name of the rack and why it goes there.
pub record Change : Type 0 where
  pub device : Device
  pub rack_name : String
  pub reason : Reason

pub record Plan : Type 0 where
  pub changes : List Change
  pub target : Change

pub data PlacementError : Type 0 where
  no_target_rack no_device invalid_unit does_not_fit no_room no_source_rack no_room_to_swap :
      PlacementError

-- The highest unit that a device takes.
pub unit_end : Device → ℤ
unit_end d = d.rack_unit_start +ℤ d.rack_unit_size -ℤ pos 1

pub overlaps : Device → Device → Bool
overlaps left right =
    leb_ℤ left.rack_unit_start (unit_end right) && leb_ℤ right.rack_unit_start (unit_end left)

-- The test of `placed.some` in `fits`.
abbrev pub in_the_way : Device → Device → Bool
in_the_way device item =
    item.rack_id == device.rack_id && not (item.id == device.id) && overlaps item device

pub fits : Device → Rack → List Device → Bool
fits device rack placed =
    leb_ℤ (pos 1) device.rack_unit_start
    && leb_ℤ (unit_end device) rack.units
    && not (any (in_the_way device) placed)

pub snapped_start : Rack → Device → ℤ → ℤ
snapped_start rack moving start =
    max_ℤ (pos 1) (min_ℤ (rack.units -ℤ moving.rack_unit_size +ℤ pos 1) start)

-- One unit block below: the place to which a device that is in the way goes.
abbrev pub candidate : Device → Device
candidate d = record d { rack_unit_start = d.rack_unit_start -ℤ d.rack_unit_size }

-- The loop over the collided devices; `none` is `canDisplace = false`.
pub displace : Rack → List Device → List Device → Option (List Device)
displace rack occupied [] = some []
displace rack occupied (d ∷ ds) =
    let rest = displace rack (occupied ++ candidate d ∷ []) ds in
    if fits (candidate d) rack occupied
    then elim rest [ none ↦ none | some cs ↦ some (candidate d ∷ cs) ]
    else none

abbrev pub by_start : Device → Device → Bool
by_start a b = leb_ℤ a.rack_unit_start b.rack_unit_start

abbrev pub without : Device → List Device → List Device
without moving = filter (λ d. not (d.id == moving.id))

abbrev pub collisions : Device → List Device → List Device
collisions next = filter (λ d. d.rack_id == next.rack_id && overlaps d next)

abbrev pub without_all : List Device → List Device → List Device
without_all collided = filter (λ d. not (any (λ item. item.id == d.id) collided))

abbrev pub change : Reason → Rack → Device → Change
change reason rack d = record { device = d; rack_name = rack.name; reason = reason }

-- The collided device at the old place of the moving one.
abbrev pub exchange : Device → Device → Device
exchange moving d = record d { rack_id = moving.rack_id; rack_unit_start = moving.rack_unit_start }

-- What is left when the collided devices cannot be displaced: one collided device changes places
-- with the moving one.
swap : List Rack → Rack → Device → Device → List Device → List Device → Result PlacementError Plan
swap racks target_rack moving next rest [] = err no_room
swap racks target_rack moving next rest (d ∷ _ ∷ _) = err no_room
swap racks target_rack moving next rest (d ∷ []) = do
  source_rack ← or_throw (find (λ r. r.id == moving.rack_id) racks) no_source_rack
  let exchanged = exchange moving d
  guard (fits exchanged source_rack (without moving rest ++ next ∷ [])) no_room_to_swap
  let target = change moved target_rack next
  ok (record { changes = target ∷ change swapped source_rack exchanged ∷ []; target = target })

-- The plan once the place of the moving device is known.
resolve :
    List Rack → Rack → Device → Device → List Device → List Device → Result PlacementError Plan
resolve racks target_rack moving next remaining collided =
    let target = change moved target_rack next in
    if is_empty collided
    then ok (record { changes = target ∷ []; target = target })
    else elim (displace target_rack (without_all collided remaining ++ next ∷ [])
        (sort by_start collided)) [
          | some cs ↦
              ok (record {
                changes = target ∷ map (change displaced target_rack) cs;
                target = target;
              })
          | none ↦
              swap racks target_rack moving next (without_all collided remaining)
                (sort by_start collided)
        ]

-- `nextMoving`: the moving device at the place that was asked for.
abbrev pub moved_to : String → ℤ → Device → Device
moved_to rack_id start moving = record moving { rack_id = rack_id; rack_unit_start = start }

-- `planRackPlacement`
pub plan_rack_placement : List Rack → String → String → Number → Result PlacementError Plan
plan_rack_placement racks device_id target_rack_id target_unit = do
  target_rack ← or_throw (find (λ r. r.id == target_rack_id) racks) no_target_rack
  let all_devices = flat_map (λ r. r.devices) racks
  moving ← or_throw (find (λ d. d.id == device_id) all_devices) no_device
  start ← or_throw (as_integer target_unit) invalid_unit
  guard (leb_ℤ (pos 1) (target_rack.units -ℤ moving.rack_unit_size +ℤ pos 1)) does_not_fit
  let next = moved_to target_rack_id (snapped_start target_rack moving start) moving
  let remaining = without moving all_devices
  resolve racks target_rack moving next remaining (collisions next remaining)

-- The update of one row by `tx.device.update`, for every device.
abbrev pub apply_change : Change → Device → Device
apply_change c d =
    if d.id == c.device.id
    then record d { rack_id = c.device.rack_id; rack_unit_start = c.device.rack_unit_start }
    else d

-- The loop over `next.changes` in `placeDevice`.
pub apply_changes : List Change → List Device → List Device
apply_changes [] ds = ds
apply_changes (c ∷ cs) ds = apply_changes cs (map (apply_change c) ds)
