-- ===== src/Base/Sort.antt =====
-- `xs.sort(compare)` as a stable insertion sort; `before x y` is `compare(x, y) <= 0`.
use mathlib.Core.Path.{◌≡◌, refl}
use mathlib.Core.Logic.{◌⊎◌, inl, inr}
use mathlib.Core.Bool.{Bool}
use mathlib.Core.List.{List, [], ◌∷◌}
use native.Mathlib.Omega.{arith}
use management_app.Base.Tests.{if◌then◌else◌}
use management_app.Base.Lists.{Elem}

module _ {A : Type 0} (before : A → A → Bool) where
  unfoldable pub insert : A → List A → List A
  insert x [] = x ∷ []
  insert x (y ∷ ys) = if before x y then x ∷ y ∷ ys else y ∷ insert x ys

  unfoldable pub sort : List A → List A
  unfolding insert
  sort [] = []
  sort (x ∷ xs) = insert x (sort xs)

  pub Elem-of_insert : (a x : A) (ys : List A) → Elem a (insert x ys) → (a ≡ x) ⊎ Elem a ys
  unfolding insert
  Elem-of_insert a x [] m = m
  Elem-of_insert a x (y ∷ ys) m = ground (arith, Elem-of_insert a x ys)

  Elem-insert_self : (x : A) (ys : List A) → Elem x (insert x ys)
  unfolding insert
  Elem-insert_self x [] = inl refl
  Elem-insert_self x (y ∷ ys) = ground (arith, Elem-insert_self x ys)

  Elem-insert : (a x : A) (ys : List A) → Elem a ys → Elem a (insert x ys)
  unfolding insert
  Elem-insert a x [] m = absurd m
  Elem-insert a x (y ∷ ys) m = ground (arith, Elem-insert a x ys)

  -- Sorting keeps the elements.
  pub Elem-of_sort : (a : A) (xs : List A) → Elem a (sort xs) → Elem a xs
  unfolding sort
  Elem-of_sort a [] m = m
  Elem-of_sort a (x ∷ xs) m = ground (arith, Elem-of_insert a x (sort xs) m, Elem-of_sort a xs)

  pub Elem-sort : (a : A) (xs : List A) → Elem a xs → Elem a (sort xs)
  unfolding sort
  Elem-sort a [] m = m
  Elem-sort a (x ∷ xs) (inl e) = rw e (Elem-insert_self x (sort xs))
  Elem-sort a (x ∷ xs) (inr m) = Elem-insert a x (sort xs) (Elem-sort a xs m)
