-- ===== src/Rack/Import.antt =====
-- `findRackImportOverlaps` of rack-placement.ts: the rows of an import that overlap one another.
pub mod Clashes
pub mod Overlaps
mod Tests
use management_app.Base.{
  ℕ, ◌≡◌, refl, sym, ◌∙◌, ◌≢◌, ◌⊎◌, inl, inr, ◌↔◌, String, Bool, true, false, not, ◌&&◌, List, [],
  ◌∷◌, ◌==◌, eq_iff, arith, Elem, if◌then◌else◌, Bool-cases,
}
use management_app.Base.Int.{ℤ, pos, ◌≤ℤ◌, ◌+ℤ◌, ◌-ℤ◌, leb_ℤ, max_ℤ, int_laws}
use management_app.Base.Number.{Number, integer, other}
use management_app.Collections.Ascending.{
  add, ascending, IsAscending, HasNoRepeats, Elem-add, add-HasNoRepeats, ascending-IsAscending,
  Elem-ascending,
}

pub record Row : Type 0 where
  pub row_number : ℕ
  pub rack_id : String
  pub rack_unit_start : Number
  pub rack_unit_size : Number

-- `Number.isInteger(x) && x >= 1`
abbrev pub is_positive : Number → Bool
is_positive (integer n) = leb_ℤ (pos 1) n
is_positive other = false

-- The two comparisons of the blocks; the callers have tested that all four are integers.
abbrev pub blocks_meet : Number → Number → Number → Number → Bool
blocks_meet (integer a) (integer s) (integer b) (integer t) =
    leb_ℤ a (b +ℤ t -ℤ pos 1) && leb_ℤ b (a +ℤ s -ℤ pos 1)
blocks_meet _ _ _ _ = false

pub is_placed : Row → Bool
is_placed r = not (r.rack_id == "") && is_positive r.rack_unit_start && is_positive r.rack_unit_size

-- The tests of the inner loop.
pub clashes : Row → Row → Bool
unfolding is_placed
clashes left right =
    is_placed right
    && left.rack_id == right.rack_id
    && blocks_meet left.rack_unit_start left.rack_unit_size right.rack_unit_start
        right.rack_unit_size

-- The inner loop, over the rows behind `left`.
pub scan_row : Row → List ℕ → List Row → List ℕ
scan_row left conflicts [] = conflicts
scan_row left conflicts (right ∷ rows) =
    scan_row left
      (if clashes left right
        then add right.row_number (add left.row_number conflicts)
        else conflicts)
      rows

pub scan_rows : List ℕ → List Row → List ℕ
scan_rows conflicts [] = conflicts
scan_rows conflicts (left ∷ rows) =
    scan_rows (if is_placed left then scan_row left conflicts rows else conflicts) rows

pub find_rack_import_overlaps : List Row → List ℕ
find_rack_import_overlaps rows = ascending (scan_rows [] rows)
