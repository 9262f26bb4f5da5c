-- ===== src/Rack/Import/Clashes.antt =====
-- What the tests of `findRackImportOverlaps` decide of two rows.
use management_app.Base.{◌≡◌, refl, ◌≢◌, ◌↔◌, true, eq_iff, arith}
use management_app.Base.Int.{ℤ, pos, ◌≤ℤ◌, ◌+ℤ◌, ◌-ℤ◌, max_ℤ, int_laws}
use management_app.Base.Number.{Number, integer, other}
use management_app.Rack.Import.{Row, is_positive, blocks_meet, is_placed, clashes}

-- The row takes unit `u`: its block is given by integers from 1.
abbrev pub Occupies : Row → ℤ → Type 0
Occupies r u =
    (start : ℤ) × (size : ℤ) × (r.rack_unit_start ≡ integer start)
    × (r.rack_unit_size ≡ integer size)
    × (pos 1 ≤ℤ start)
    × (pos 1 ≤ℤ size)
    × (start ≤ℤ u)
    × (u ≤ℤ start +ℤ size -ℤ pos 1)

-- Both rows name one rack and take a unit in common.
abbrev pub Clash : Row → Row → Type 0
Clash l r = (l.rack_id ≢ "") × (l.rack_id ≡ r.rack_id) × ((u : ℤ) × Occupies l u × Occupies r u)

block-end : (a s : ℤ) → pos 1 ≤ℤ s → a ≤ℤ a +ℤ s -ℤ pos 1
block-end a s h = omega int_laws

is_positive-integer : (x : Number) → is_positive x ≡ true → (n : ℤ) × (x ≡ integer n) × (pos 1 ≤ℤ n)
is_positive-integer (integer n) h = (n, refl, ground arith)
is_positive-integer other h = absurd (cc)

Clash-of_tests : (l r : Row) → is_placed l ≡ true → clashes l r ≡ true → Clash l r
unfolding clashes
Clash-of_tests l r hl hr =
    let (a, ea, pa) = is_positive-integer l.rack_unit_start (ground arith) in
    let (s, es, ps) = is_positive-integer l.rack_unit_size (ground arith) in
    let (b, eb, pb) = is_positive-integer r.rack_unit_start (ground arith) in
    let (t, et, pt) = is_positive-integer r.rack_unit_size (ground arith) in
    let same : l.rack_id ≡ r.rack_id = ground (arith, eq_iff l.rack_id r.rack_id) in
    let named : l.rack_id ≢ "" = ground (arith, eq_iff l.rack_id "") in
    let meet : blocks_meet (integer a) (integer s) (integer b) (integer t) ≡ true =
      ground (arith, ea, es, eb, et) in
    let in_l = block-end a s ps in
    let in_r = block-end b t pt in
    (
      named,
      same,
      (
        max_ℤ a b,
        (a, s, ea, es, pa, ps, ground (arith, meet, in_l, in_r), ground (arith, meet, in_l, in_r)),
        (b, t, eb, et, pb, pt, ground (arith, meet, in_l, in_r), ground (arith, meet, in_l, in_r)),
      ),
    )

tests_of_Clash : (l r : Row) → Clash l r → (is_placed l ≡ true) × (clashes l r ≡ true)
unfolding clashes
tests_of_Clash l r
      (named, same, (u, (a, s, ea, es, pa, ps, la, ua), (b, t, eb, et, pb, pt, lb, ub))) =
    (
      ground (arith, eq_iff l.rack_id ""),
      ground (arith, eq_iff r.rack_id "", eq_iff l.rack_id r.rack_id),
    )

-- A placed row and a later one pass the tests exactly when they clash.
pub Clash-iff : (l r : Row) → ((is_placed l ≡ true) × (clashes l r ≡ true)) ↔ Clash l r
Clash-iff l r = ((λ h. Clash-of_tests l r h.0 h.1), tests_of_Clash l r)
