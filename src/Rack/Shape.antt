-- ===== src/Rack/Shape.antt =====
-- What a plan of `planRackPlacement` looks like: the three ways to resolve a drop.
use management_app.Base.{
  ◌≡◌, refl, inl, inr, String, true, some, List, [], ◌∷◌, ◌++◌, map, ◌==◌, arith, find, flat_map,
  ok, Option-cases, Bool-cases, is_empty, or_throw_bind, guard_bind,
}
use management_app.Base.Int.{ℤ, pos, ◌≤ℤ◌, ◌+ℤ◌, ◌-ℤ◌, leb_ℤ, leb_ℤ→≤}
use management_app.Base.Number.{Number, as_integer}
use management_app.Base.Sort.{sort}
use management_app.Rack.{
  Device, Rack, Change, Plan, moved, displaced, swapped, change, fits, displace, by_start, without,
  does_not_fit, without_all, collisions, exchange, swap, resolve, moved_to, snapped_start,
  plan_rack_placement,
}

is_empty-nil : {A : Type 0} (xs : List A) → is_empty xs ≡ true → xs ≡ []
is_empty-nil [] h = refl
is_empty-nil (x ∷ xs) h = absurd (cc)

module _ (racks : List Rack) (target_rack : Rack) (moving next : Device)
    (remaining collided : List Device) where
  -- The plan that moves the device, with further changes.
  abbrev pub plan_with : List Change → Plan
  plan_with cs = record {
    changes = change moved target_rack next ∷ cs;
    target = change moved target_rack next;
  }

  pub data Shape (p : Plan) : Type 0 where
    free : collided ≡ [] → p ≡ plan_with [] → Shape p
    pushed :
        (cs : List Device)
        → displace target_rack
            (without_all collided remaining ++ next ∷ [])
            (sort by_start collided)
          ≡ some cs
        → p ≡ plan_with (map (change displaced target_rack) cs)
        → Shape p
    exchanged :
        (d : Device) (source : Rack)
        → sort by_start collided ≡ d ∷ []
        → find (λ r. r.id == moving.rack_id) racks ≡ some source
        → fits
            (exchange moving d)
            source
            (without moving (without_all collided remaining) ++ next ∷ [])
          ≡ true
        → p ≡ plan_with (change swapped source (exchange moving d) ∷ [])
        → Shape p

  swap-Shape :
      (ds : List Device) (p : Plan)
      → sort by_start collided ≡ ds
      → swap racks target_rack moving next (without_all collided remaining) ds ≡ ok p
      → Shape p
  unfolding swap
  swap-Shape [] p same h = absurd (cc)
  swap-Shape (d ∷ b ∷ ds) p same h = absurd (cc)
  swap-Shape (d ∷ []) p same h = elim (Option-cases (find (λ r. r.id == moving.rack_id) racks)) [
    | inl missing ↦ absurd (ground (arith, missing))
    | inr (source, found) ↦
        elim (Bool-cases (
          fits (exchange moving d) source
            (without moving (without_all collided remaining) ++ next ∷ []))) [
              | inl fit ↦ exchanged d source same found fit (ground (arith, found, fit))
              | inr full ↦ absurd (ground (arith, found, full))
            ]
  ]

  resolve-Shape :
      (p : Plan) → resolve racks target_rack moving next remaining collided ≡ ok p → Shape p
  unfolding resolve
  resolve-Shape p h = elim (Bool-cases (is_empty collided)) [
    | inl empty ↦ free (is_empty-nil collided empty) (ground (arith, empty))
    | inr some_collide ↦
        elim (Option-cases (
          displace target_rack (without_all collided remaining ++ next ∷ [])
            (sort by_start collided))) [
              | inl stuck ↦
                  swap-Shape (sort by_start collided) p refl (ground (arith, some_collide, stuck))
              | inr (cs, e) ↦ pushed cs e (ground (arith, some_collide, e))
            ]
  ]

-- The parts from which a plan is made, and the tests that it has passed.
pub record Planned (racks : List Rack) (device_id target_rack_id : String) (target_unit : Number)
    (p : Plan) : Type 0 where
  pub target_rack : Rack
  pub moving : Device
  pub start : ℤ
  pub rack_found : find (λ r. r.id == target_rack_id) racks ≡ some target_rack
  pub device_found : find (λ d. d.id == device_id) (flat_map (λ r. r.devices) racks) ≡ some moving
  pub unit : as_integer target_unit ≡ some start
  pub room : pos 1 ≤ℤ target_rack.units -ℤ moving.rack_unit_size +ℤ pos 1
  pub shape :
      let next = moved_to target_rack_id (snapped_start target_rack moving start) moving in
      let remaining = without moving (flat_map (λ r. r.devices) racks) in
      Shape racks target_rack moving next remaining (collisions next remaining) p

pub plan-Planned :
    (racks : List Rack) (device_id target_rack_id : String) (target_unit : Number) (p : Plan)
    → plan_rack_placement racks device_id target_rack_id target_unit ≡ ok p
    → Planned racks device_id target_rack_id target_unit p
unfolding plan_rack_placement
plan-Planned racks device_id target_rack_id target_unit p h =
    let (target_rack, rack_found, h1) = or_throw_bind _ _ _ h in
    let (moving, device_found, h2) = or_throw_bind _ _ _ h1 in
    let (start, unit, h3) = or_throw_bind _ _ _ h2 in
    let highest : ℤ = target_rack.units -ℤ moving.rack_unit_size +ℤ pos 1 in
    let (room, h4) = guard_bind (leb_ℤ (pos 1) highest) does_not_fit _ h3 in
    record {
      target_rack = target_rack;
      moving = moving;
      start = start;
      rack_found = rack_found;
      device_found = device_found;
      unit = unit;
      room = leb_ℤ→≤ (pos 1) highest room;
      shape = resolve-Shape racks target_rack moving _ _ _ p h4;
    }
