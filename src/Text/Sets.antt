-- ===== src/Text/Sets.antt =====
-- `[...new Set(texts)]`
use management_app.Base.{
  ◌≡◌, refl, ◌⊎◌, inl, inr, ◌↔◌, arith, Bool, true, false, ◌&&◌, List, [], ◌∷◌, ◌++◌, eqb, any,
  Elem, Elem-of_any, Bool-cases, if◌then◌else◌,
}
use management_app.Text.{Text}

abbrev pub same : Text → Text → Bool
same [] [] = true
same [] (_ ∷ _) = false
same (_ ∷ _) [] = false
same (c ∷ s) (d ∷ t) = eqb c d && same s t

unfoldable pub set_add : Text → List Text → List Text
set_add t set = if any (same t) set then set else set ++ t ∷ []

unfoldable pub set_of : List Text → List Text → List Text
unfolding set_add
set_of set [] = set
set_of set (t ∷ ts) = set_of (set_add t set) ts

pub same_iff : (s t : Text) → (same s t ≡ true) ↔ (s ≡ t)
same_iff [] [] = ((λ h. refl), (λ h. refl))
same_iff [] (d ∷ t) = ground arith
same_iff (c ∷ s) [] = ground arith
same_iff (c ∷ s) (d ∷ t) = ground (arith, same_iff s t)

Elem-snoc : (a t : Text) (set : List Text) → Elem a (set ++ t ∷ []) ↔ ((a ≡ t) ⊎ Elem a set)
Elem-snoc a t [] = ((λ m. m), (λ m. m))
Elem-snoc a t (x ∷ set) = grind (arith, Elem-snoc a t set)

Elem-set_add : (a t : Text) (set : List Text) → Elem a (set_add t set) ↔ ((a ≡ t) ⊎ Elem a set)
unfolding set_add
Elem-set_add a t set = elim (Bool-cases (any (same t) set)) [
  | inl old ↦ rw old ((λ m. inr m), known old)
  | inr new ↦ rw new (Elem-snoc a t set)
]
  where
    known : any (same t) set ≡ true → (a ≡ t) ⊎ Elem a set → Elem a set
    known old (inl e) =
        let (x, m, f) = Elem-of_any (same t) set old in
        let other : t ≡ x = (same_iff t x).0 f in rw (e, other) m
    known old (inr m) = m

-- The set has the elements of the list, besides those it started with.
pub Elem-set_of :
    (a : Text) (set ts : List Text) → Elem a (set_of set ts) ↔ (Elem a ts ⊎ Elem a set)
unfolding set_of
Elem-set_of a set [] = ((λ m. inr m), (λ m. ground arith))
Elem-set_of a set (t ∷ ts) = grind (arith, Elem-set_of a (set_add t set) ts, Elem-set_add a t set)
