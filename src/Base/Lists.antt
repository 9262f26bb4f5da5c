-- ===== src/Base/Lists.antt =====
-- The array methods of the source over a Boolean test, and membership in their results.
use Prim.Native.Nat.{ℕ, suc, ◌+◌, ◌≤◌}
use mathlib.Core.Path.{◌≡◌, refl, ap, subst}
use mathlib.Core.Logic.{◌⊎◌, inl, inr}
use mathlib.Core.Bool.{Bool, true, false, ◌&&◌, ◌||◌}
use mathlib.Core.Option.{Option, none, some}
use mathlib.Core.List.{List, [], ◌∷◌, ◌++◌, map}
use native.Mathlib.Omega.{arith}
use management_app.Base.Tests.{if◌then◌else◌, Bool-cases}

module _ {ℓ} {A : Type ℓ} where
  abbrev pub length : List A → ℕ
  length [] = 0
  length (x ∷ xs) = suc (length xs)

  -- `xs.filter(p)`
  abbrev pub filter : (A → Bool) → List A → List A
  filter p [] = []
  filter p (x ∷ xs) = if p x then x ∷ filter p xs else filter p xs

  -- `xs.find(p)`
  abbrev pub find : (A → Bool) → List A → Option A
  find p [] = none
  find p (x ∷ xs) = if p x then some x else find p xs

  -- `xs.some(p)`
  abbrev pub any : (A → Bool) → List A → Bool
  any p [] = false
  any p (x ∷ xs) = p x || any p xs

  -- `xs.every(p)`
  abbrev pub all : (A → Bool) → List A → Bool
  all p [] = true
  all p (x ∷ xs) = p x && all p xs

  -- `!xs.length`
  abbrev pub is_empty : List A → Bool
  is_empty [] = true
  is_empty (x ∷ xs) = false

  -- A property of every element.
  abbrev pub All {κ} : (A → Type κ) → List A → Type κ
  All P [] = Unit
  All P (x ∷ xs) = P x × All P xs

module _ {ℓ κ} {A : Type ℓ} {B : Type κ} where
  -- `xs.flatMap(f)`
  abbrev pub flat_map : (A → List B) → List A → List B
  flat_map f [] = []
  flat_map f (x ∷ xs) = f x ++ flat_map f xs

module _ {ℓ} {A : Type ℓ} where
  pub length-append : (xs ys : List A) → length (xs ++ ys) ≡ length xs + length ys
  length-append [] ys = omega arith
  length-append (x ∷ xs) ys = omega (arith, length-append xs ys)

  pub length-filter-le : (p : A → Bool) (xs : List A) → length (filter p xs) ≤ length xs
  length-filter-le p [] = omega arith
  length-filter-le p (x ∷ xs) = ground (arith, length-filter-le p xs)

-- Membership computes to a sum of equations, which the tactics take apart. The sum ends in `⊥`,
-- a type of the lowest universe, so the section stays there.
module _ {A : Type 0} where
  abbrev pub Elem : A → List A → Type 0
  Elem a [] = ⊥
  Elem a (x ∷ xs) = (a ≡ x) ⊎ Elem a xs

  pub All-Elem {κ} : (P : A → Type κ) {a : A} (xs : List A) → All P xs → Elem a xs → P a
  All-Elem P [] h m = absurd m
  All-Elem P (x ∷ xs) (h, hs) (inl e) = rw e h
  All-Elem P (x ∷ xs) (h, hs) (inr m) = All-Elem P xs hs m

  pub All-of_Elem {κ} : (P : A → Type κ) (xs : List A) → ((a : A) → Elem a xs → P a) → All P xs
  All-of_Elem P [] h = tt
  All-of_Elem P (x ∷ xs) h = (h x (inl refl), All-of_Elem P xs (λ a m. h a (inr m)))

  pub All-append {κ} : (P : A → Type κ) (xs ys : List A) → All P xs → All P ys → All P (xs ++ ys)
  All-append P [] ys hx hy = hy
  All-append P (x ∷ xs) ys (h, hx) hy = (h, All-append P xs ys hx hy)

  pub Elem-append : (a : A) (xs ys : List A) → Elem a (xs ++ ys) → Elem a xs ⊎ Elem a ys
  Elem-append a [] ys m = inr m
  Elem-append a (x ∷ xs) ys (inl e) = inl (inl e)
  Elem-append a (x ∷ xs) ys (inr m) = elim (Elem-append a xs ys m) [
    | inl l ↦ inl (inr l)
    | inr r ↦ inr r
  ]

  pub Elem-append_left : (a : A) (xs ys : List A) → Elem a xs → Elem a (xs ++ ys)
  Elem-append_left a [] ys m = absurd m
  Elem-append_left a (x ∷ xs) ys (inl e) = inl e
  Elem-append_left a (x ∷ xs) ys (inr m) = inr (Elem-append_left a xs ys m)

  pub Elem-append_right : (a : A) (xs ys : List A) → Elem a ys → Elem a (xs ++ ys)
  Elem-append_right a [] ys m = m
  Elem-append_right a (x ∷ xs) ys m = inr (Elem-append_right a xs ys m)

  cons_cases : (a x : A) (xs : List A) → Elem a (x ∷ xs) → (a ≡ x) ⊎ Elem a xs
  cons_cases a x xs m = m

  -- An element of a filtered list is an element that passes the test.
  pub Elem-of_filter :
      (p : A → Bool) (a : A) (xs : List A) → Elem a (filter p xs) → Elem a xs × (p a ≡ true)
  Elem-of_filter p a [] m = absurd m
  Elem-of_filter p a (x ∷ xs) m = elim (Bool-cases (p x)) [
    | inl h ↦ elim (cons_cases a x (filter p xs) (rw h at m)) [
      | inl e ↦ (inl e, rw e h)
      | inr t ↦ let r = Elem-of_filter p a xs t in (inr r.0, r.1)
    ]
    | inr h ↦ let r = Elem-of_filter p a xs (rw h at m) in (inr r.0, r.1)
  ]

  pub Elem-filter :
      (p : A → Bool) (a : A) (xs : List A) → Elem a xs → p a ≡ true → Elem a (filter p xs)
  Elem-filter p a [] m h = absurd m
  Elem-filter p a (x ∷ xs) (inl e) h = let hx : p x ≡ true = rw e at h in rw hx (inl e)
  Elem-filter p a (x ∷ xs) (inr m) h = elim (Bool-cases (p x)) [
    | inl hx ↦ rw hx (inr (Elem-filter p a xs m h))
    | inr hx ↦ rw hx (Elem-filter p a xs m h)
  ]

  pub any-Elem : (p : A → Bool) (a : A) (xs : List A) → Elem a xs → p a ≡ true → any p xs ≡ true
  any-Elem p a [] m h = absurd m
  any-Elem p a (x ∷ xs) (inl e) h = let hx : p x ≡ true = rw e at h in rw hx
  any-Elem p a (x ∷ xs) (inr m) h = ground (arith, any-Elem p a xs m h)

  pub Elem-of_any :
      (p : A → Bool) (xs : List A) → any p xs ≡ true → (a : A) × Elem a xs × (p a ≡ true)
  Elem-of_any p [] h = cc
  Elem-of_any p (x ∷ xs) h = elim (Bool-cases (p x)) [
    | inl hx ↦ (x, inl refl, hx)
    | inr hx ↦ let (a, m, e) = Elem-of_any p xs (rw hx at h) in (a, inr m, e)
  ]

  -- No element passes a test that `some` refuses.
  pub any-false : (p : A → Bool) (a : A) (xs : List A) → any p xs ≡ false → Elem a xs → p a ≡ false
  any-false p a xs h m = elim (Bool-cases (p a)) [
    | inl e ↦ let t = any-Elem p a xs m e in cc
    | inr e ↦ e
  ]

  pub Elem-of_find :
      (p : A → Bool) (a : A) (xs : List A) → find p xs ≡ some a → Elem a xs × (p a ≡ true)
  Elem-of_find p a [] h = cc
  Elem-of_find p a (x ∷ xs) h = elim (Bool-cases (p x)) [
    | inl hx ↦ let e : a ≡ x = ground arith in (inl e, rw e hx)
    | inr hx ↦ let r = Elem-of_find p a xs (rw hx at h) in (inr r.0, r.1)
  ]

  pub find-none : (p : A → Bool) (a : A) (xs : List A) → find p xs ≡ none → Elem a xs → p a ≡ false
  find-none p a [] h m = absurd m
  find-none p a (x ∷ xs) h (inl e) = rw e (ground arith)
  find-none p a (x ∷ xs) h (inr m) = find-none p a xs (ground arith) m

module _ {A B : Type 0} (f : A → B) where
  pub Elem-of_map : (b : B) (xs : List A) → Elem b (map f xs) → (a : A) × Elem a xs × (b ≡ f a)
  Elem-of_map b [] m = absurd m
  Elem-of_map b (x ∷ xs) (inl e) = (x, inl refl, e)
  Elem-of_map b (x ∷ xs) (inr m) = let (a, n, e) = Elem-of_map b xs m in (a, inr n, e)

  pub Elem-map : (a : A) (xs : List A) → Elem a xs → Elem (f a) (map f xs)
  Elem-map a [] m = absurd m
  Elem-map a (x ∷ xs) (inl e) = inl (ap f e)
  Elem-map a (x ∷ xs) (inr m) = inr (Elem-map a xs m)

module _ {A B : Type 0} (f : A → List B) where
  pub Elem-of_flat_map :
      (b : B) (xs : List A) → Elem b (flat_map f xs) → (a : A) × Elem a xs × Elem b (f a)
  Elem-of_flat_map b [] m = absurd m
  Elem-of_flat_map b (x ∷ xs) m = elim (Elem-append b (f x) (flat_map f xs) m) [
    | inl now ↦ (x, inl refl, now)
    | inr later ↦ let (a, n, k) = Elem-of_flat_map b xs later in (a, inr n, k)
  ]

  pub Elem-flat_map :
      (b : B) (a : A) (xs : List A) → Elem a xs → Elem b (f a) → Elem b (flat_map f xs)
  Elem-flat_map b a [] m k = absurd m
  Elem-flat_map b a (x ∷ xs) (inl e) k =
      Elem-append_left b (f x) (flat_map f xs) (subst (λ y. Elem b (f y)) e k)
  Elem-flat_map b a (x ∷ xs) (inr m) k =
      Elem-append_right b (f x) (flat_map f xs) (Elem-flat_map b a xs m k)
