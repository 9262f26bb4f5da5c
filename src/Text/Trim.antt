-- ===== src/Text/Trim.antt =====
-- To trim twice is to trim once.
use management_app.Base.{◌≡◌, refl, arith, [], ◌∷◌, Bool-cases, inl, inr, is_empty, ◌&&◌}
use management_app.Text.{Text, is_space, trim_start, trim_end, trim}

trim_end_idem : (t : Text) → trim_end (trim_end t) ≡ trim_end t
unfolding trim_end
trim_end_idem [] = refl
trim_end_idem (c ∷ t) = elim (Bool-cases (is_empty (trim_end t) && is_space c)) [
  | inl gone ↦ rw gone refl
  | inr kept ↦ rw kept (rw (trim_end_idem t, kept) refl)
]

trim_start-trim_end-trim_start :
    (t : Text) → trim_start (trim_end (trim_start t)) ≡ trim_end (trim_start t)
unfolding trim_start trim_end
trim_start-trim_end-trim_start [] = refl
trim_start-trim_end-trim_start (c ∷ t) = elim (Bool-cases (is_space c)) [
  | inl space ↦ rw space (trim_start-trim_end-trim_start t)
  | inr other ↦ rw other (ground arith)
]

pub trim_idem : (t : Text) → trim (trim t) ≡ trim t
unfolding trim
trim_idem t = rw (trim_start-trim_end-trim_start t) (trim_end_idem (trim_start t))
