-- ===== src/Operations/Policies/Kept.antt =====
-- When an alert is let through.
use management_app.Base.{
  ℕ, ◌+◌, ◌≤◌, ◌≡◌, refl, sym, ◌⊎◌, inl, inr, ◌↔◌, arith, String, Bool, true, false, Option, List,
  [], ◌∷◌, filter, leb, Elem, All, All-Elem, All-of_Elem, any, any-false, Elem-of_any, is_empty,
  Bool-cases, if◌then◌else◌,
}
use mathlib.Core.Path.{subst}
use native.Mathlib.Nat.{le_refl}
use management_app.Base.Sort.{insert, sort, Elem-of_insert, Elem-sort, Elem-of_sort}
use management_app.Operations.Alerts.{Severity, Alert}
use management_app.Operations.Policies.{
  AlertRule, rank, is_critical, same_site, in_quiet_window, is_applicable, comes_first,
  first_admits, is_kept,
}

-- The rule is on the alert's own site (or, for an alert without a site, on no site).
abbrev pub is_own : Alert → AlertRule → Bool
is_own a r = same_site r.site_id a.site_id

-- The comparator sorts by this weight, the greatest first.
abbrev weight : Alert → AlertRule → ℕ
weight a r = (if is_own a r then 4 else 0) + rank r.min_severity

rank_bound : (s : Severity) → rank s ≤ 3
rank_bound s = ground arith

comes_first_lem : (a : Alert) (l r : AlertRule) → comes_first a l r ≡ leb (weight a r) (weight a l)
comes_first_lem a l r = elim (Bool-cases (is_own a l)) [
  | inl x ↦ elim (Bool-cases (is_own a r)) [
    | inl y ↦ rw (x, y) (ground (arith, rank_bound r.min_severity, rank_bound l.min_severity))
    | inr y ↦ rw (x, y) (ground (arith, rank_bound r.min_severity, rank_bound l.min_severity))
  ]
  | inr x ↦ elim (Bool-cases (is_own a r)) [
    | inl y ↦ rw (x, y) (ground (arith, rank_bound r.min_severity, rank_bound l.min_severity))
    | inr y ↦ rw (x, y) (ground (arith, rank_bound r.min_severity, rank_bound l.min_severity))
  ]
]

list_cases : {A : Type 0} (xs : List A) → (xs ≡ []) ⊎ ((h : A) × (t : List A) × (xs ≡ h ∷ t))
list_cases [] = inl refl
list_cases (h ∷ t) = inr (h, t, refl)

-- Sorting by a weight puts an element of greatest weight in front.
module _ {A : Type 0} (before : A → A → Bool) (w : A → ℕ)
    (by_weight : (l r : A) → before l r ≡ leb (w r) (w l)) where
  abbrev IsLed : List A → Type 0
  IsLed [] = Unit
  IsLed (h ∷ t) = All (λ x. w x ≤ w h) t

  insert-IsLed : (x : A) (ys : List A) → IsLed ys → IsLed (insert before x ys)
  unfolding insert
  insert-IsLed x [] led = tt
  insert-IsLed x (y ∷ ys) led = elim (Bool-cases (before x y)) [
    | inl first ↦
        let greater : w y ≤ w x = ground (arith, by_weight x y, first) in
        rw first (
          greater,
          All-of_Elem _ ys (λ z m. omega (arith, greater, All-Elem (λ z. w z ≤ w y) ys led m)),
        )
    | inr later ↦
        let less : w x ≤ w y = ground (arith, by_weight x y, later) in
        rw later (
          All-of_Elem _ (insert before x ys) (λ z m. elim (Elem-of_insert before z x ys m) [
            | inl e ↦ rw e less
            | inr k ↦ All-Elem (λ z. w z ≤ w y) ys led k
          ]))
  ]

  sort-IsLed : (xs : List A) → IsLed (sort before xs)
  unfolding sort
  sort-IsLed [] = tt
  sort-IsLed (x ∷ xs) = insert-IsLed x (sort before xs) (sort-IsLed xs)

  head_greatest :
      (xs : List A) (h : A) (t : List A) (x : A) → sort before xs ≡ h ∷ t → Elem x xs → w x ≤ w h
  head_greatest xs h t x e m =
      let led : All (λ x. w x ≤ w h) t = subst IsLed e (sort-IsLed xs) in
      elim (subst (Elem x) e (Elem-sort before x xs m)) [
        | inl same ↦ rw same (le_refl (w h))
        | inr k ↦ All-Elem (λ x. w x ≤ w h) t led k
      ]

-- Some rule of the most specific kind there is has a threshold that the alert reaches.
abbrev pub Reaches : Alert → List AlertRule → Type 0
Reaches a rules =
    (r : AlertRule) × Elem r rules
    × (rank a.severity ≤ rank r.min_severity)
    × ((is_own a r ≡ true) ⊎ (any (is_own a) rules ≡ false))

not_empty : {A : Type 0} (x : A) (xs : List A) → Elem x xs → is_empty xs ≡ true → ⊥
not_empty x [] m h = absurd m
not_empty x (y ∷ ys) m h = cc

is_empty-of_sort :
    (a : Alert) (rules : List AlertRule) → sort (comes_first a) rules ≡ [] → is_empty rules ≡ true
is_empty-of_sort a [] h = refl
is_empty-of_sort a (r ∷ rules) h =
    absurd (subst (Elem r) h (Elem-sort (comes_first a) r (r ∷ rules) (inl refl)))

own_weight : (a : Alert) (r : AlertRule) → is_own a r ≡ true → weight a r ≡ 4 + rank r.min_severity
own_weight a r h = rw h refl

other_weight : (a : Alert) (r : AlertRule) → is_own a r ≡ false → weight a r ≡ rank r.min_severity
other_weight a r h = rw h (omega arith)

module _ (a : Alert) (rules : List AlertRule) (h : AlertRule) (here : Elem h rules)
    (greatest : (x : AlertRule) → Elem x rules → weight a x ≤ weight a h) where
  own_if_any : is_own a h ≡ false → any (is_own a) rules ≡ false
  own_if_any other = elim (Bool-cases (any (is_own a) rules)) [
    | inr nothing ↦ nothing
    | inl there ↦
        let (x, m, own) = Elem-of_any (is_own a) rules there in
        absurd (
          omega (
            arith,
            greatest x m,
            own_weight a x own,
            other_weight a h other,
            rank_bound h.min_severity,
          ))
  ]

  reached_by_first : Reaches a rules → rank a.severity ≤ rank h.min_severity
  reached_by_first (r, m, reach, inl own) = elim (Bool-cases (is_own a h)) [
    | inl first ↦ omega (arith, greatest r m, own_weight a r own, own_weight a h first)
    | inr other ↦ absurd (
        omega (
          arith,
          greatest r m,
          own_weight a r own,
          other_weight a h other,
          rank_bound h.min_severity,
        ))
  ]
  reached_by_first (r, m, reach, inr nothing) = elim (Bool-cases (is_own a h)) [
    | inl first ↦ let none_own = any-false (is_own a) h rules nothing here in absurd (cc)
    | inr other ↦ omega (
      arith,
      greatest r m,
      other_weight a r (any-false (is_own a) r rules nothing m),
      other_weight a h other,
    )
  ]

first_admits_iff :
    (a : Alert) (rules : List AlertRule)
    → (first_admits a (sort (comes_first a) rules) ≡ true)
      ↔ ((is_empty rules ≡ true) ⊎ Reaches a rules)
first_admits_iff a rules = elim (list_cases (sort (comes_first a) rules)) [
  | inl nothing ↦ rw nothing ((λ _. inl (is_empty-of_sort a rules nothing)), (λ _. refl))
  | inr (h, t, e) ↦
      let greatest = head_greatest (comes_first a) (weight a) (comes_first_lem a) rules h t in
      let m = Elem-of_sort (comes_first a) h rules (subst (Elem h) (sym e) (inl refl)) in
      rw e (
        (λ k. inr (
          h,
          m,
          ground (arith, k),
          elim (Bool-cases (is_own a h)) [
            | inl own ↦ inl own
            | inr other ↦ inr (own_if_any a rules h m (λ x. greatest x e) other)
          ],
        )),
        (λ w. elim w [
          | inl none_there ↦ absurd (not_empty h rules m none_there)
          | inr reach ↦ ground (arith, reached_by_first a rules h m (λ x. greatest x e) reach)
        ]),
      )
]

-- A critical alert is always let through. Any other is let through exactly when no maintenance
-- window covers its site and either no rule applies to it or it reaches the threshold of one of the
-- most specific rules that apply: those on its own site if there are any, else the global ones.
pub is_kept_iff :
    (rules : List AlertRule) (windows : List (Option String)) (a : Alert)
    → (is_kept rules windows a ≡ true) ↔ (
        (is_critical a.severity ≡ true)
        ⊎ ((in_quiet_window windows a ≡ false)
            × ((is_empty (filter (is_applicable a) rules) ≡ true)
                ⊎ Reaches a (filter (is_applicable a) rules))))
unfolding is_kept
is_kept_iff rules windows a = grind (arith, first_admits_iff a (filter (is_applicable a) rules))
