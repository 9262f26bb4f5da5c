-- ===== src/Rack/Import/Tests.antt =====
-- Three rows of an import, two of which overlap.
use management_app.Base.{ℕ, String, ◌≡◌, refl, ◌↔◌, List, [], ◌∷◌, Elem}
use management_app.Base.Int.{pos, ◌+ℤ◌, ◌-ℤ◌}
use management_app.Base.Number.{integer, other}
use management_app.Base.Sort.{sort}
use management_app.Collections.Ascending.{add, ascending}
use management_app.Rack.Import.{
  Row, find_rack_import_overlaps, scan_rows, scan_row, is_placed, clashes,
}
use management_app.Rack.Import.Overlaps.{IsConflict, find_rack_import_overlaps_iff}

abbrev row : ℕ → String → ℕ → ℕ → Row
row n rack start size = record {
  row_number = n;
  rack_id = rack;
  rack_unit_start = integer (pos start);
  rack_unit_size = integer (pos size);
}

abbrev rows : List Row
rows =
    row 7 "r" 3 2
    ∷ record (row 5 "r" 1 9) { rack_unit_size = other }
    ∷ row 4 "r" 1 3
    ∷ row 9 "s" 1 3
    ∷ []

reported : find_rack_import_overlaps rows ≡ 4 ∷ 7 ∷ []
unfolding find_rack_import_overlaps scan_rows scan_row is_placed clashes sort add ascending ◌+ℤ◌
    ◌-ℤ◌
reported = refl

find_rack_import_overlaps_iff_example : Elem 7 (find_rack_import_overlaps rows) ↔ IsConflict 7 rows
find_rack_import_overlaps_iff_example = find_rack_import_overlaps_iff 7 rows
