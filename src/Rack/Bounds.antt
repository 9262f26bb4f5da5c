-- ===== src/Rack/Bounds.antt =====
-- Where a plan puts its devices: inside the racks, and no device moves without need.
use management_app.Base.{
  ◌≡◌, refl, sym, ◌∙◌, ap, inl, inr, String, true, not, ◌&&◌, List, [], ◌∷◌, map, Elem, some, ok,
  ◌==◌, eq_iff, arith, Elem-of_find, Elem-of_filter, Elem-of_map,
}
use management_app.Base.Int.{ℤ, pos, ◌≤ℤ◌, ◌+ℤ◌, ◌-ℤ◌, int_laws}
use management_app.Base.Number.{Number}
use management_app.Base.Sort.{sort, Elem-of_sort}
use management_app.Rack.{
  Device, Rack, Change, Plan, change, moved, displaced, swapped, exchange, by_start, collisions,
  without, plan_rack_placement, snapped_start, unit_end, overlaps, moved_to, displace,
}
use management_app.Rack.Units.{fits_bounds}
use management_app.Rack.Displace.{Elem-of_displace}
use management_app.Rack.Shape.{Shape, free, pushed, exchanged, Planned, plan-Planned}
use management_app.Rack.Layout.{all_devices}

snapped_start_bounds :
    (r : Rack) (m : Device) (start : ℤ)
    → pos 1 ≤ℤ r.units -ℤ m.rack_unit_size +ℤ pos 1
    → (pos 1 ≤ℤ snapped_start r m start)
      × (snapped_start r m start ≤ℤ r.units -ℤ m.rack_unit_size +ℤ pos 1)
unfolding snapped_start
snapped_start_bounds r m start h = ground arith

moved_to-unit_end :
    (r : Rack) (m : Device) (id : String) (start : ℤ)
    → start ≤ℤ r.units -ℤ m.rack_unit_size +ℤ pos 1
    → unit_end (moved_to id start m) ≤ℤ r.units
unfolding unit_end
moved_to-unit_end r m id start h = omega int_laws

-- The change puts its device inside a rack of the list, whose id and name it bears.
abbrev pub IsInside : List Rack → Change → Type 0
IsInside racks c =
    (r : Rack) × Elem r racks
    × (r.id ≡ c.device.rack_id)
    × (r.name ≡ c.rack_name)
    × (pos 1 ≤ℤ c.device.rack_unit_start)
    × (unit_end c.device ≤ℤ r.units)

module _ (racks : List Rack) (device_id rack_id : String) (unit : Number) (p : Plan)
    (m : Planned racks device_id rack_id unit p) where
  abbrev pub there : Device
  there = moved_to rack_id (snapped_start m.target_rack m.moving m.start) m.moving

  abbrev pub others : List Device
  others = without m.moving (all_devices racks)

  target_rack-id : (Elem m.target_rack racks) × (m.target_rack.id ≡ rack_id)
  target_rack-id =
      let (k, e) = Elem-of_find _ m.target_rack racks m.rack_found in (k, (eq_iff _ _).0 e)

  -- A device that is in the way.
  pub hit-Elem :
      (d : Device)
      → Elem d (collisions there others)
      → Elem d (all_devices racks) × (d.rack_id ≡ rack_id) × (overlaps d there ≡ true)
  hit-Elem d k =
      let (n, e) =
        Elem-of_filter (λ x. x.rack_id == there.rack_id && overlaps x there) d others k in
      let (o, _) = Elem-of_filter (λ x. not (x.id == m.moving.id)) d (all_devices racks) n in
      (o, ground (arith, eq_iff d.rack_id rack_id), ground (arith, e))

  target-IsInside : IsInside racks (change moved m.target_rack there)
  target-IsInside =
      let (k, same) = target_rack-id in
      let (lo, hi) = snapped_start_bounds m.target_rack m.moving m.start m.room in
      (
        m.target_rack,
        k,
        same,
        refl,
        lo,
        moved_to-unit_end m.target_rack m.moving rack_id
            (snapped_start m.target_rack m.moving m.start) hi,
      )

  displaced-IsInside :
      (cs : List Device) (occupied : List Device)
      → displace m.target_rack occupied (sort by_start (collisions there others)) ≡ some cs
      → (c : Change) → Elem c (map (change displaced m.target_rack) cs)
      → IsInside racks c
  displaced-IsInside cs occupied h c k =
      let (x, n, e) = Elem-of_map (change displaced m.target_rack) c cs k in
      let (d, in_sort, same, lo, hi) = Elem-of_displace m.target_rack occupied _ cs x h n in
      let (_, rack_of_d, _) = hit-Elem d (Elem-of_sort by_start d _ in_sort) in
      let (r_in, r_id) = target_rack-id in
      rw e (
        m.target_rack,
        r_in,
        r_id ∙ sym rack_of_d ∙ sym (ap (λ (y : Device). y.rack_id) same),
        refl,
        lo,
        hi,
      )

  Shape-IsInside :
      Shape racks m.target_rack m.moving there others (collisions there others) p
      → (c : Change) → Elem c p.changes
      → IsInside racks c
  Shape-IsInside (free _ e) c k = inside (rw e at k)
    where
      inside : Elem c (change moved m.target_rack there ∷ []) → IsInside racks c
      inside (inl same) = rw same target-IsInside
      inside (inr none_left) = absurd none_left
  Shape-IsInside (pushed cs h e) c k = inside (rw e at k)
    where
      inside :
          Elem c (change moved m.target_rack there ∷ map (change displaced m.target_rack) cs)
          → IsInside racks c
      inside (inl same) = rw same target-IsInside
      inside (inr later) = displaced-IsInside cs _ h c later
  Shape-IsInside (exchanged d source one found fit e) c k = inside (rw e at k)
    where
      inside :
          Elem c
            (change moved m.target_rack there ∷ change swapped source (exchange m.moving d) ∷ [])
          → IsInside racks c
      inside (inl same) = rw same target-IsInside
      inside (inr (inl same)) =
          let (k, id_of) = Elem-of_find _ source racks found in
          let (lo, hi) = fits_bounds (exchange m.moving d) source _ fit in
          rw same (source, k, (eq_iff _ _).0 id_of, refl, lo, hi)
      inside (inr (inr none_left)) = absurd none_left

-- Every change of a plan puts its device on units 1 to `units` of a rack of the list.
pub plan-IsInside :
    (racks : List Rack) (device_id target_rack_id : String) (target_unit : Number) (p : Plan)
    → plan_rack_placement racks device_id target_rack_id target_unit ≡ ok p
    → (c : Change) → Elem c p.changes
    → IsInside racks c
plan-IsInside racks device_id target_rack_id target_unit p h =
    let m = plan-Planned racks device_id target_rack_id target_unit p h in
    Shape-IsInside racks device_id target_rack_id target_unit p m m.shape
