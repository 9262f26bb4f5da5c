-- ===== src/Rack/Tests.antt =====
-- A drop that displaces one device, in a rack of ten units.
use management_app.Base.{◌≡◌, refl, ◌≢◌, inl, inr, List, [], ◌∷◌, arith, eq_iff, Elem, ok, false}
use management_app.Base.Int.{pos, ◌+ℤ◌, ◌-ℤ◌}
use management_app.Base.Number.{integer}
use management_app.Base.Sort.{sort}
use management_app.Rack.{
  Device, Rack, Change, Plan, moved, displaced, plan_rack_placement, apply_changes, unit_end,
  overlaps, fits, snapped_start, displace, swap, resolve, moved_to,
}
use management_app.Rack.Units.{IsLayout}
use management_app.Rack.Drop.{HasUniqueIds}
use management_app.Rack.Layout.{plan-IsLayout, all_devices}
use management_app.Rack.Bounds.{IsInside, plan-IsInside}
use management_app.Rack.Need.{IsNeeded, plan-IsNeeded}

abbrev switch : Device
switch = record {
  id = "a";
  name = "switch";
  rack_id = "r";
  rack_unit_start = pos 1;
  rack_unit_size = pos 2;
}

abbrev server : Device
server = record {
  id = "b";
  name = "server";
  rack_id = "r";
  rack_unit_start = pos 5;
  rack_unit_size = pos 2;
}

abbrev only_rack : Rack
only_rack = record { id = "r"; name = "R1"; units = pos 10; devices = switch ∷ server ∷ [] }

abbrev racks : List Rack
racks = only_rack ∷ []

abbrev switch_change : Change
switch_change = record {
  device = record switch { rack_unit_start = pos 6 };
  rack_name = "R1";
  reason = moved;
}

abbrev server_change : Change
server_change = record {
  device = record server { rack_unit_start = pos 3 };
  rack_name = "R1";
  reason = displaced;
}

abbrev plan : Plan
plan = record { changes = switch_change ∷ server_change ∷ []; target = switch_change }

planned : plan_rack_placement racks "a" "r" (integer (pos 6)) ≡ ok plan
unfolding plan_rack_placement resolve displace swap fits overlaps unit_end snapped_start sort ◌+ℤ◌
    ◌-ℤ◌
planned = refl

unique : HasUniqueIds (all_devices racks)
unique d e (inl p) (inl q) same = cc
unique d e (inl p) (inr (inl q)) same = ground (arith, eq_iff "a" "b")
unique d e (inr (inl p)) (inl q) same = ground (arith, eq_iff "a" "b")
unique d e (inr (inl p)) (inr (inl q)) same = cc
unique d e (inr (inr p)) n same = absurd p
unique d e m (inr (inr q)) same = absurd q

layout : IsLayout (all_devices racks)
unfolding unit_end ◌+ℤ◌ ◌-ℤ◌
layout d e (inl p) (inl q) ne same u cd ce = ground arith
layout d e (inl p) (inr (inl q)) ne same u cd ce = ground arith
layout d e (inr (inl p)) (inl q) ne same u cd ce = ground arith
layout d e (inr (inl p)) (inr (inl q)) ne same u cd ce = ground arith
layout d e (inr (inr p)) n ne same u cd ce = absurd p
layout d e m (inr (inr q)) ne same u cd ce = absurd q

plan-IsLayout_example : IsLayout (apply_changes plan.changes (all_devices racks))
plan-IsLayout_example = plan-IsLayout racks "a" "r" (integer (pos 6)) plan unique layout planned

plan-IsInside_example : IsInside racks server_change
plan-IsInside_example =
    plan-IsInside racks "a" "r" (integer (pos 6)) plan planned server_change (inr (inl refl))

plan-IsNeeded_example : IsNeeded racks "a" plan server_change
plan-IsNeeded_example =
    plan-IsNeeded racks "a" "r" (integer (pos 6)) plan planned server_change (inr (inl refl))

apart :
    (d : Device)
    → Elem d (all_devices racks)
    → d.id ≢ switch.id
    → d.rack_id ≡ "r"
    → overlaps d (moved_to "r" (snapped_start only_rack switch (pos 20)) switch) ≡ false
unfolding overlaps unit_end snapped_start ◌+ℤ◌ ◌-ℤ◌
apart d (inl e) ne same = absurd (ne (cc))
apart d (inr (inl e)) ne same = rw e refl
apart d (inr (inr e)) ne same = absurd e

-- Unit 20 is out of range: the switch goes to the highest place.
