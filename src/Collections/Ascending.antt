-- ===== src/Collections/Ascending.antt =====
-- `[...new Set(xs)].sort((a, b) => a - b)` on numbers: a set as a list without repetition, and its
-- elements in strictly ascending order.
use management_app.Base.{
  ℕ, ◌≡◌, refl, ◌⊎◌, inl, inr, ◌↔◌, true, false, List, [], ◌∷◌, ◌++◌, ◌<◌, arith, any, eqb, leb,
  eqb_iff, if◌then◌else◌, Elem, Elem-of_any, any-Elem, All, Bool-cases,
}
use management_app.Base.Sort.{insert, sort, Elem-of_sort, Elem-sort}

-- `set.add(n)`: a new element goes to the end.
unfoldable pub add : ℕ → List ℕ → List ℕ
add n s = if any (eqb n) s then s else s ++ n ∷ []

-- `new Set(xs)`, from the elements of `s` on.
unfoldable pub add_all : List ℕ → List ℕ → List ℕ
unfolding add
add_all s [] = s
add_all s (x ∷ xs) = add_all (add x s) xs

unfoldable pub ascending : List ℕ → List ℕ
unfolding sort
ascending = sort leb

abbrev pub HasNoRepeats : List ℕ → Type 0
HasNoRepeats [] = Unit
HasNoRepeats (n ∷ s) = (¬ Elem n s) × HasNoRepeats s

abbrev pub IsAscending : List ℕ → Type 0
IsAscending [] = Unit
IsAscending (n ∷ s) = All (λ m. n < m) s × IsAscending s

pub Elem-snoc : (a n : ℕ) (s : List ℕ) → Elem a (s ++ n ∷ []) ↔ ((a ≡ n) ⊎ Elem a s)
Elem-snoc a n [] = (λ m. m, λ m. m)
Elem-snoc a n (x ∷ s) = grind (arith, Elem-snoc a n s)

Elem-of_any-eqb : (n : ℕ) (s : List ℕ) → any (eqb n) s ≡ true → Elem n s
Elem-of_any-eqb n s h = let (x, m, e) = Elem-of_any (eqb n) s h in rw ((eqb_iff n x).0 e) m

not-Elem : (n : ℕ) (s : List ℕ) → any (eqb n) s ≡ false → ¬ Elem n s
not-Elem n s h m = let seen = any-Elem (eqb n) n s m ((eqb_iff n n).1 refl) in cc

pub Elem-add : (a n : ℕ) (s : List ℕ) → Elem a (add n s) ↔ ((a ≡ n) ⊎ Elem a s)
unfolding add
Elem-add a n s = elim (Bool-cases (any (eqb n) s)) [
  | inl old ↦ rw old ((λ m. inr m), known old)
  | inr new ↦ rw new (Elem-snoc a n s)
]
  where
    known : any (eqb n) s ≡ true → (a ≡ n) ⊎ Elem a s → Elem a s
    known old (inl e) = rw e (Elem-of_any-eqb n s old)
    known old (inr m) = m

HasNoRepeats-snoc : (n : ℕ) (s : List ℕ) → HasNoRepeats s → ¬ Elem n s → HasNoRepeats (s ++ n ∷ [])
HasNoRepeats-snoc n [] h out = ((λ m. ground arith), tt)
HasNoRepeats-snoc n (x ∷ s) (hx, hs) out =
    ((λ m. ground (arith, (Elem-snoc x n s).0 m)), HasNoRepeats-snoc n s hs (λ m. out (inr m)))

pub add-HasNoRepeats : (n : ℕ) (s : List ℕ) → HasNoRepeats s → HasNoRepeats (add n s)
unfolding add
add-HasNoRepeats n s h = elim (Bool-cases (any (eqb n) s)) [
  | inl old ↦ rw old h
  | inr new ↦ rw new (HasNoRepeats-snoc n s h (not-Elem n s new))
]

pub add_all-HasNoRepeats : (xs s : List ℕ) → HasNoRepeats s → HasNoRepeats (add_all s xs)
unfolding add_all
add_all-HasNoRepeats [] s h = h
add_all-HasNoRepeats (x ∷ xs) s h = add_all-HasNoRepeats xs (add x s) (add-HasNoRepeats x s h)

pub Elem-add_all : (a : ℕ) (xs s : List ℕ) → Elem a (add_all s xs) ↔ (Elem a xs ⊎ Elem a s)
unfolding add_all
Elem-add_all a [] s = ((λ m. inr m), nothing)
  where
    nothing : ⊥ ⊎ Elem a s → Elem a s
    nothing (inl m) = absurd m
    nothing (inr m) = m
Elem-add_all a (x ∷ xs) s = grind (arith, Elem-add_all a xs (add x s), Elem-add a x s)

All-lt_insert :
    (k n : ℕ) (s : List ℕ) → k < n → All (λ m. k < m) s → All (λ m. k < m) (insert leb n s)
unfolding insert
All-lt_insert k n [] h hs = (h, tt)
All-lt_insert k n (x ∷ s) h (hx, hs) = ground (arith, All-lt_insert k n s h hs)

All-lt_trans : (k n : ℕ) (s : List ℕ) → k < n → All (λ m. n < m) s → All (λ m. k < m) s
All-lt_trans k n [] h hs = tt
All-lt_trans k n (x ∷ s) h (hx, hs) = (omega arith, All-lt_trans k n s h hs)

insert-IsAscending :
    (n : ℕ) (s : List ℕ) → IsAscending s → ¬ Elem n s → IsAscending (insert leb n s)
unfolding insert
insert-IsAscending n [] h out = (tt, tt)
insert-IsAscending n (x ∷ s) (hx, hs) out = elim (Bool-cases (leb n x)) [
  | inl le ↦
      let lt : n < x = ground (arith, λ (e : n ≡ x). out (inl e)) in
      rw le ((lt, All-lt_trans n x s lt hx), (hx, hs))
  | inr gt ↦
      rw gt (All-lt_insert x n s (ground arith) hx, insert-IsAscending n s hs (λ m. out (inr m)))
]

-- The elements of a set without repetition come out in strictly ascending order.
pub ascending-IsAscending : (s : List ℕ) → HasNoRepeats s → IsAscending (ascending s)
unfolding ascending
ascending-IsAscending [] h = tt
ascending-IsAscending (n ∷ s) (hn, hs) =
    insert-IsAscending n (sort leb s) (ascending-IsAscending s hs)
      (λ m. hn (Elem-of_sort leb n s m))

pub Elem-ascending : (a : ℕ) (s : List ℕ) → Elem a (ascending s) ↔ Elem a s
unfolding ascending
Elem-ascending a s = (Elem-of_sort leb a s, Elem-sort leb a s)

-- `[...new Set(xs)].sort((a, b) => a - b)`
unfoldable pub ascending_set : List ℕ → List ℕ
unfolding ascending add_all
ascending_set xs = ascending (add_all [] xs)

pub ascending_set-IsAscending : (xs : List ℕ) → IsAscending (ascending_set xs)
unfolding ascending_set
ascending_set-IsAscending xs = ascending-IsAscending (add_all [] xs) (add_all-HasNoRepeats xs [] tt)

pub Elem-ascending_set : (a : ℕ) (xs : List ℕ) → Elem a (ascending_set xs) ↔ Elem a xs
unfolding ascending_set
Elem-ascending_set a xs = grind (arith, Elem-ascending a (add_all [] xs), Elem-add_all a xs [])
