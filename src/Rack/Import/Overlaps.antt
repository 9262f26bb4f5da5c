-- ===== src/Rack/Import/Overlaps.antt =====
-- The rows that `findRackImportOverlaps` reports.
use management_app.Base.{
  ℕ, ◌≡◌, refl, ◌⊎◌, inl, inr, ◌↔◌, true, List, [], ◌∷◌, arith, Elem, Bool-cases, if◌then◌else◌,
}
use management_app.Collections.Ascending.{
  add, ascending, IsAscending, HasNoRepeats, Elem-add, add-HasNoRepeats, ascending-IsAscending,
  Elem-ascending,
}
use management_app.Rack.Import.{
  Row, is_placed, clashes, scan_row, scan_rows, find_rack_import_overlaps,
}
use management_app.Rack.Import.Clashes.{Clash, Clash-iff}

-- `l` stands before `r` in the list.
abbrev pub Before : Row → Row → List Row → Type 0
Before l r [] = ⊥
Before l r (x ∷ xs) = ((l ≡ x) × Elem r xs) ⊎ Before l r xs

abbrev Names : ℕ → Row → Row → Type 0
Names n l r = (n ≡ l.row_number) ⊎ (n ≡ r.row_number)

-- A row behind `l` clashes with it, and `n` is the number of one of them.
abbrev FromRow : ℕ → Row → List Row → Type 0
FromRow n l [] = ⊥
FromRow n l (r ∷ rows) = ((clashes l r ≡ true) × Names n l r) ⊎ FromRow n l rows

abbrev FromRows : ℕ → List Row → Type 0
FromRows n [] = ⊥
FromRows n (l ∷ rows) = ((is_placed l ≡ true) × FromRow n l rows) ⊎ FromRows n rows

Elem-report :
    (n : ℕ) (l r : Row) (cs : List ℕ)
    → Elem n (if clashes l r then add r.row_number (add l.row_number cs) else cs)
      ↔ (Elem n cs ⊎ ((clashes l r ≡ true) × Names n l r))
Elem-report n l r cs =
    grind (arith, Elem-add n r.row_number (add l.row_number cs), Elem-add n l.row_number cs)

scan_row_iff :
    (n : ℕ) (l : Row) (cs : List ℕ) (rows : List Row)
    → Elem n (scan_row l cs rows) ↔ (Elem n cs ⊎ FromRow n l rows)
unfolding scan_row
scan_row_iff n l cs [] = grind arith
scan_row_iff n l cs (r ∷ rows) =
    let next : List ℕ = if clashes l r then add r.row_number (add l.row_number cs) else cs in
    let step = Elem-report n l r cs in
    let rest = scan_row_iff n l next rows in grind (arith, step, rest)

scan_rows_iff :
    (n : ℕ) (cs : List ℕ) (rows : List Row)
    → Elem n (scan_rows cs rows) ↔ (Elem n cs ⊎ FromRows n rows)
unfolding scan_rows
scan_rows_iff n cs [] = grind arith
scan_rows_iff n cs (l ∷ rows) = elim (Bool-cases (is_placed l)) [
  | inl here ↦
      rw here (grind (arith, scan_row_iff n l cs rows, scan_rows_iff n (scan_row l cs rows) rows))
  | inr skipped ↦ rw skipped (grind (arith, scan_rows_iff n cs rows))
]

-- Two rows of the list that clash, one before the other; `n` is the number of one of them.
abbrev pub IsConflict : ℕ → List Row → Type 0
IsConflict n rows = (l : Row) × (r : Row) × Before l r rows × Clash l r × Names n l r

FromRow-Elem :
    (n : ℕ) (l : Row) (rows : List Row)
    → FromRow n l rows
    → (r : Row) × Elem r rows × (clashes l r ≡ true) × Names n l r
FromRow-Elem n l (r ∷ rows) (inl (h, k)) = (r, inl refl, h, k)
FromRow-Elem n l (r ∷ rows) (inr f) = let (x, m, h, k) = FromRow-Elem n l rows f in (x, inr m, h, k)
FromRow-Elem n l [] f = absurd f

FromRow-of_Elem :
    (n : ℕ) (l r : Row) (rows : List Row)
    → Elem r rows
    → clashes l r ≡ true
    → Names n l r
    → FromRow n l rows
FromRow-of_Elem n l r [] m h k = absurd m
FromRow-of_Elem n l r (x ∷ rows) (inl e) h k = inl (rw e at h, rw e at k)
FromRow-of_Elem n l r (x ∷ rows) (inr m) h k = inr (FromRow-of_Elem n l r rows m h k)

IsConflict-of_FromRows : (n : ℕ) (rows : List Row) → FromRows n rows → IsConflict n rows
IsConflict-of_FromRows n [] f = absurd f
IsConflict-of_FromRows n (l ∷ rows) (inl (here, f)) =
    let (r, m, h, k) = FromRow-Elem n l rows f in
    (l, r, inl (refl, m), (Clash-iff l r).0 (here, h), k)
IsConflict-of_FromRows n (l ∷ rows) (inr f) =
    let (a, b, m, c, k) = IsConflict-of_FromRows n rows f in (a, b, inr m, c, k)

FromRows-of_Before :
    (n : ℕ) (l r : Row) (rows : List Row)
    → Before l r rows
    → Clash l r
    → Names n l r
    → FromRows n rows
FromRows-of_Before n l r [] m c k = absurd m
FromRows-of_Before n l r (x ∷ rows) (inl (e, m)) c k =
    let (here, h) = (Clash-iff l r).1 c in
    inl (rw e at here, rw e at (FromRow-of_Elem n l r rows m h k))
FromRows-of_Before n l r (x ∷ rows) (inr m) c k = inr (FromRows-of_Before n l r rows m c k)

-- A row number is reported exactly when one of its rows clashes with another row of the import.
pub find_rack_import_overlaps_iff :
    (n : ℕ) (rows : List Row) → Elem n (find_rack_import_overlaps rows) ↔ IsConflict n rows
unfolding find_rack_import_overlaps
find_rack_import_overlaps_iff n rows = (to, from)
  where
    listed : Elem n (ascending (scan_rows [] rows)) ↔ FromRows n rows
    listed = grind (arith, Elem-ascending n (scan_rows [] rows), scan_rows_iff n [] rows)

    to : Elem n (ascending (scan_rows [] rows)) → IsConflict n rows
    to m = IsConflict-of_FromRows n rows (listed.0 m)

    from : IsConflict n rows → Elem n (ascending (scan_rows [] rows))
    from (l, r, m, c, k) = listed.1 (FromRows-of_Before n l r rows m c k)

scan_row-HasNoRepeats :
    (l : Row) (cs : List ℕ) (rows : List Row) → HasNoRepeats cs → HasNoRepeats (scan_row l cs rows)
unfolding scan_row
scan_row-HasNoRepeats l cs [] h = h
scan_row-HasNoRepeats l cs (r ∷ rows) h = elim (Bool-cases (clashes l r)) [
  | inl hit ↦ rw hit (
      scan_row-HasNoRepeats l (add r.row_number (add l.row_number cs)) rows
        (add-HasNoRepeats r.row_number _ (add-HasNoRepeats l.row_number cs h)))
  | inr miss ↦ rw miss (scan_row-HasNoRepeats l cs rows h)
]

scan_rows-HasNoRepeats :
    (cs : List ℕ) (rows : List Row) → HasNoRepeats cs → HasNoRepeats (scan_rows cs rows)
unfolding scan_rows
scan_rows-HasNoRepeats cs [] h = h
scan_rows-HasNoRepeats cs (l ∷ rows) h = elim (Bool-cases (is_placed l)) [
  | inl here ↦
      rw here (scan_rows-HasNoRepeats (scan_row l cs rows) rows (scan_row-HasNoRepeats l cs rows h))
  | inr skipped ↦ rw skipped (scan_rows-HasNoRepeats cs rows h)
]

-- The reported numbers come in strictly ascending order, each once.
pub find_rack_import_overlaps-IsAscending :
    (rows : List Row) → IsAscending (find_rack_import_overlaps rows)
unfolding find_rack_import_overlaps
find_rack_import_overlaps-IsAscending rows =
    ascending-IsAscending (scan_rows [] rows) (scan_rows-HasNoRepeats [] rows tt)
