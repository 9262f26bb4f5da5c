-- ===== src/Rack/Units.antt =====
-- The rack units that a device covers, and what the two tests of rack-placement.ts decide.
use management_app.Base.{◌≡◌, ◌≢◌, ◌↔◌, true, false, List, arith, eq_iff, Elem, any-false}
use management_app.Base.Int.{ℤ, pos, ◌≤ℤ◌, max_ℤ, int_laws}
use management_app.Rack.{Device, Rack, unit_end, overlaps, in_the_way, fits}

-- Unit `u` is taken by the device.
abbrev pub Covers : Device → ℤ → Type 0
Covers d u = (d.rack_unit_start ≤ℤ u) × (u ≤ℤ unit_end d)

abbrev pub Disjoint : Device → Device → Type 0
Disjoint d e = (u : ℤ) → Covers d u → Covers e u → ⊥

-- Two different devices of one rack share no unit.
abbrev pub Compatible : Device → Device → Type 0
Compatible d e = d.id ≢ e.id → d.rack_id ≡ e.rack_id → Disjoint d e

abbrev pub IsLayout : List Device → Type 0
IsLayout ds = (d e : Device) → Elem d ds → Elem e ds → Compatible d e

pub Disjoint-of_overlaps : (d e : Device) → overlaps d e ≡ false → Disjoint d e
unfolding overlaps
Disjoint-of_overlaps d e h u p q = ground arith

pub Compatible-symm : (d e : Device) → Compatible d e → Compatible e d
Compatible-symm d e c ne same u p q = c (λ x. ne (cc)) (cc) u q p

start-le-end : (d : Device) → pos 1 ≤ℤ d.rack_unit_size → d.rack_unit_start ≤ℤ unit_end d
unfolding unit_end
start-le-end d h = omega int_laws

-- The test of the source finds a shared unit exactly when there is one, for devices that take at
-- least one unit each.
pub overlaps_iff :
    (d e : Device)
    → pos 1 ≤ℤ d.rack_unit_size
    → pos 1 ≤ℤ e.rack_unit_size
    → (overlaps d e ≡ true) ↔ ((u : ℤ) × Covers d u × Covers e u)
unfolding overlaps
overlaps_iff d e hd he = (to, from)
  where
    to : overlaps d e ≡ true → (u : ℤ) × Covers d u × Covers e u
    to h = (
      max_ℤ d.rack_unit_start e.rack_unit_start,
      ground (arith, start-le-end d hd, start-le-end e he),
      ground (arith, start-le-end d hd, start-le-end e he),
    )

    from : (u : ℤ) × Covers d u × Covers e u → overlaps d e ≡ true
    from (u, p, q) = ground arith

pub fits_bounds :
    (d : Device) (r : Rack) (placed : List Device)
    → fits d r placed ≡ true
    → (pos 1 ≤ℤ d.rack_unit_start) × (unit_end d ≤ℤ r.units)
unfolding fits
fits_bounds d r placed h = ground arith

-- A device that fits is compatible with every device that is placed.
pub fits-Compatible :
    (d : Device) (r : Rack) (placed : List Device)
    → fits d r placed ≡ true
    → (e : Device) → Elem e placed
    → Compatible d e
unfolding fits
fits-Compatible d r placed h e m ne same u p q =
    let clear : in_the_way d e ≡ false = any-false (in_the_way d) e placed (ground arith) m in
    let apart : overlaps e d ≡ false =
      ground (arith, eq_iff e.rack_id d.rack_id, eq_iff e.id d.id) in
    Disjoint-of_overlaps e d apart u q p
