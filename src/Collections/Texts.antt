-- ===== src/Collections/Texts.antt =====
-- `Set<string>` and `includes` on arrays of texts.
use text.Mathlib.TextPositions.{eq_refl}
use management_app.Base.{
  ◌≡◌, ◌⊎◌, inl, inr, ◌↔◌, String, Bool, true, List, [], ◌∷◌, ◌==◌, eq_iff, arith, any,
  if◌then◌else◌, Elem, Elem-of_any, any-Elem, Bool-cases,
}

-- `xs.includes(s)`
abbrev pub includes : String → List String → Bool
includes s = any (λ x. x == s)

-- `[...new Set(xs)]`, where the texts of `seen` have come before.
unfoldable pub unique_after : List String → List String → List String
unique_after seen [] = []
unique_after seen (x ∷ xs) =
    let skipped = unique_after seen xs in
    let kept = x ∷ unique_after (x ∷ seen) xs in if includes x seen then skipped else kept

unfoldable pub unique : List String → List String
unfolding unique_after
unique = unique_after []

pub includes_iff : (s : String) (xs : List String) → (includes s xs ≡ true) ↔ Elem s xs
includes_iff s xs = (
  (λ h. let (x, m, e) = Elem-of_any (λ x. x == s) xs h in rw (← (eq_iff x s).0 e) m),
  (λ m. any-Elem (λ x. x == s) s xs m (eq_refl s)),
)

Elem-unique_after :
    (s : String) (seen xs : List String)
    → (Elem s (unique_after seen xs) ⊎ Elem s seen) ↔ (Elem s xs ⊎ Elem s seen)
unfolding unique_after
Elem-unique_after s seen [] = ((λ m. m), (λ m. m))
Elem-unique_after s seen (x ∷ xs) = elim (Bool-cases (includes x seen)) [
  | inl old ↦ rw old (repeated ((includes_iff x seen).0 old) (Elem-unique_after s seen xs))
  | inr new ↦ rw new (grind (arith, Elem-unique_after s (x ∷ seen) xs))
]
  where
    repeated :
        Elem x seen
        → (Elem s (unique_after seen xs) ⊎ Elem s seen) ↔ (Elem s xs ⊎ Elem s seen)
        → (Elem s (unique_after seen xs) ⊎ Elem s seen) ↔ (((s ≡ x) ⊎ Elem s xs) ⊎ Elem s seen)
    repeated old ih = (to, from)
      where
        to : Elem s (unique_after seen xs) ⊎ Elem s seen → ((s ≡ x) ⊎ Elem s xs) ⊎ Elem s seen
        to m = grind (arith, ih)

        from : ((s ≡ x) ⊎ Elem s xs) ⊎ Elem s seen → Elem s (unique_after seen xs) ⊎ Elem s seen
        from (inl (inl e)) = inr (rw e old)
        from (inl (inr m)) = ih.1 (inl m)
        from (inr m) = inr m

-- The set has the elements of the list.
pub Elem-unique : (s : String) (xs : List String) → Elem s (unique xs) ↔ Elem s xs
unfolding unique
Elem-unique s xs = grind (arith, Elem-unique_after s [] xs)
