-- ===== src/Rack/Need.antt =====
-- A plan moves no device without need, and a free place is always taken.
use management_app.Base.{
  ◌≡◌, refl, sym, ◌∙◌, ap, ◌≢◌, ◌⊎◌, inl, inr, String, Bool, true, false, not, ◌&&◌, List, [], ◌∷◌,
  map, Elem, some, ok, ◌==◌, eq_iff, arith, Elem-of_find, Elem-of_filter, Elem-of_map, find, filter,
}
use management_app.Base.Int.{ℤ, pos, ◌+ℤ◌, ◌-ℤ◌, leb_ℤ}
use management_app.Base.Number.{Number, integer}
use management_app.Base.Sort.{sort, Elem-of_sort}
use management_app.Rack.{
  Device, Rack, Change, Plan, change, moved, displaced, swapped, exchange, by_start, collisions,
  without, plan_rack_placement, snapped_start, overlaps, moved_to, resolve,
}
use management_app.Rack.Displace.{Elem-of_displace}
use management_app.Rack.Shape.{Shape, free, pushed, exchanged, Planned, plan-Planned, plan_with}
use management_app.Rack.Layout.{all_devices}
use management_app.Rack.Bounds.{there, others, hit-Elem}

-- The change is about the dragged device, or about one that overlaps its new place in the target
-- rack.
abbrev pub IsNeeded : List Rack → String → Plan → Change → Type 0
IsNeeded racks device_id p c =
    (d : Device) × Elem d (all_devices racks)
    × (d.id ≡ c.device.id)
    × ((d.id ≡ device_id)
        ⊎ ((d.rack_id ≡ p.target.device.rack_id) × (overlaps d p.target.device ≡ true)))

module _ (racks : List Rack) (device_id rack_id : String) (unit : Number) (p : Plan)
    (m : Planned racks device_id rack_id unit p) where
  abbrev next : Device
  next = there racks device_id rack_id unit p m

  abbrev hit : List Device
  hit = collisions next (others racks device_id rack_id unit p m)

  abbrev plan : List Change → Plan
  plan = plan_with racks m.target_rack m.moving next (others racks device_id rack_id unit p m) hit

  dragged :
      (cs : List Change) → IsNeeded racks device_id (plan cs) (change moved m.target_rack next)
  dragged cs =
      let (k, e) = Elem-of_find _ m.moving (all_devices racks) m.device_found in
      (m.moving, k, refl, inl ((eq_iff _ _).0 e))

  in_the_way :
      (cs : List Change) (c : Change) (d : Device)
      → Elem d hit
      → d.id ≡ c.device.id
      → IsNeeded racks device_id (plan cs) c
  in_the_way cs c d k e =
      let (n, same, over) = hit-Elem racks device_id rack_id unit p m d k in
      (d, n, e, inr (same, over))

  Shape-IsNeeded :
      Shape racks m.target_rack m.moving next (others racks device_id rack_id unit p m) hit p
      → (c : Change) → Elem c p.changes
      → IsNeeded racks device_id p c
  Shape-IsNeeded (free _ e) c k = rw e (needed (rw e at k))
    where
      needed : Elem c (plan []).changes → IsNeeded racks device_id (plan []) c
      needed (inl same) = rw same (dragged [])
      needed (inr none_left) = absurd none_left
  Shape-IsNeeded (pushed cs h e) c k = rw e (needed (rw e at k))
    where
      later : List Change
      later = map (change displaced m.target_rack) cs

      needed : Elem c (plan later).changes → IsNeeded racks device_id (plan later) c
      needed (inl same) = rw same (dragged later)
      needed (inr n) =
          let (x, in_cs, same) = Elem-of_map (change displaced m.target_rack) c cs n in
          let (d, in_sort, at, _, _) =
            Elem-of_displace m.target_rack _ (sort by_start hit) cs x h in_cs in
          in_the_way later c d (Elem-of_sort by_start d hit in_sort)
            (sym (ap (λ (y : Change). y.device.id) same ∙ ap (λ (y : Device). y.id) at))
  Shape-IsNeeded (exchanged d source one found fit e) c k = rw e (needed (rw e at k))
    where
      later : List Change
      later = change swapped source (exchange m.moving d) ∷ []

      needed : Elem c (plan later).changes → IsNeeded racks device_id (plan later) c
      needed (inl same) = rw same (dragged later)
      needed (inr (inl same)) =
          in_the_way later c d (Elem-of_sort by_start d hit (rw one (inl refl)))
            (sym (ap (λ (y : Change). y.device.id) same))
      needed (inr (inr none_left)) = absurd none_left

-- A plan touches the dragged device and devices that overlap its new place in the target rack, and
-- no others.
pub plan-IsNeeded :
    (racks : List Rack) (device_id target_rack_id : String) (target_unit : Number) (p : Plan)
    → plan_rack_placement racks device_id target_rack_id target_unit ≡ ok p
    → (c : Change) → Elem c p.changes
    → IsNeeded racks device_id p c
plan-IsNeeded racks device_id target_rack_id target_unit p h =
    let m = plan-Planned racks device_id target_rack_id target_unit p h in
    Shape-IsNeeded racks device_id target_rack_id target_unit p m m.shape

filter-nil :
    (t : Device → Bool) (xs : List Device)
    → ((d : Device) → Elem d xs → t d ≡ false)
    → filter t xs ≡ []
filter-nil t [] h = refl
filter-nil t (x ∷ xs) h = rw (h x (inl refl)) (filter-nil t xs (λ d m. h d (inr m)))

resolve-nil :
    (racks : List Rack) (r : Rack) (m next : Device) (remaining hit : List Device)
    → hit ≡ []
    → let target = change moved r next in
      resolve racks r m next remaining hit ≡ ok (record { changes = target ∷ []; target = target })
unfolding resolve
resolve-nil racks r m next remaining hit e = rw e

-- Where the device exists, fits in the rack, and nothing else in the target rack overlaps the
-- place that was asked for, moved into the rack's range, there is a plan, and it is the one move.
pub plan_free :
    (racks : List Rack) (device_id target_rack_id : String) (start : ℤ) (r : Rack) (m : Device)
    → find (λ x. x.id == target_rack_id) racks ≡ some r
    → find (λ x. x.id == device_id) (all_devices racks) ≡ some m
    → leb_ℤ (pos 1) (r.units -ℤ m.rack_unit_size +ℤ pos 1) ≡ true
    → ((d : Device)
        → Elem d (all_devices racks)
        → d.id ≢ m.id
        → d.rack_id ≡ target_rack_id
        → overlaps d (moved_to target_rack_id (snapped_start r m start) m) ≡ false)
    → let target = change moved r (moved_to target_rack_id (snapped_start r m start) m) in
      plan_rack_placement racks device_id target_rack_id (integer start)
      ≡ ok (record { changes = target ∷ []; target = target })
unfolding plan_rack_placement
plan_free racks device_id target_rack_id start r m found_r found_m room free_place =
    rw (found_r, found_m, room) (resolve-nil racks r m next rest (collisions next rest) none_hit)
  where
    next : Device
    next = moved_to target_rack_id (snapped_start r m start) m

    rest : List Device
    rest = without m (all_devices racks)

    misses : (d : Device) → Elem d rest → (d.rack_id == target_rack_id && overlaps d next) ≡ false
    misses d k =
        let (n, out) = Elem-of_filter (λ x. not (x.id == m.id)) d (all_devices racks) k in
        ground (arith, free_place d n, eq_iff d.id m.id, eq_iff d.rack_id target_rack_id)

    none_hit : collisions next rest ≡ []
    none_hit = filter-nil _ rest misses
