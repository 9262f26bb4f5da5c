-- ===== src/Snmp/Polls/Drifts/Spec.antt =====
-- What a drift is, without the code of `replaceDrifts` of poll.ts: entries of a map, and fields that differ.
use management_app.Base.{
  ◌≡◌, ◌≢◌, refl, sym, ◌∙◌, ap, ◌⊎◌, ◌↔◌, inl, inr, arith, Bool, true, false, ◌&&◌, Option, none,
  some, List, [], ◌∷◌, ◌++◌, Elem, Bool-cases, Option-cases,
}
use mathlib.Core.Path.{subst}
use management_app.Base.Int.{ℤ, pos, negsuc, leb_ℤ}
use management_app.Base.Number.{Number, integer, other}
use management_app.Text.{Text}
use management_app.Text.Sets.{same, same_iff}
use management_app.Snmp.Polls.Drifts.{
  Documented, Observed, Field, hostname, description, admin_up, mac_address, speed_mbps, Value,
  text, flag, number, DriftStatus, pending, accepted, ignored, Drift, get, named, documented_of,
  same_number, texts_differ, flags_differ, numbers_differ, difference, is_pending, is_open_of,
  host_difference, is_given,
}

-- The last entry of the key in the array of a map.
abbrev pub LastOf : Text → List (Text × Documented) → Documented → Type 0
LastOf key entries d =
    (before : List (Text × Documented)) × (after : List (Text × Documented)) × (entries
      ≡ before ++ (key, d) ∷ after)
    × ((e : Text × Documented) → Elem e after → e.0 ≢ key)

-- An interface is documented under the name that it gives, where that is there and not empty.
abbrev pub IsNamed : (Text → Text) → List (Text × Documented) → Option Text → Documented → Type 0
IsNamed lower entries name d = (t : Text) × (name ≡ some t) × (t ≢ []) × LastOf (lower t) entries d

-- By its name, or by its description where it is not documented under its name.
abbrev pub IsDocumented : (Text → Text) → List (Text × Documented) → Observed → Documented → Type 0
IsDocumented lower entries o d =
    IsNamed lower entries o.name d
    ⊎ (((c : Documented) → ¬ IsNamed lower entries o.name c)
        × IsNamed lower entries o.description d)

abbrev pub IsSameNumber : Number → Number → Type 0
IsSameNumber x y = (n : ℤ) × (x ≡ integer n) × (y ≡ integer n)

-- A field that is documented and reported, with different values.
pub data Differs (d : Documented) (o : Observed) : Field → Value → Value → Type 0 where
  descriptions :
      (x y : Text)
      → d.description ≡ some x
      → o.description ≡ some y
      → x ≢ y
      → Differs d o description (text x) (text y)
  admin_states :
      (x y : Bool)
      → d.admin_up ≡ some x
      → o.admin_up ≡ some y
      → x ≢ y
      → Differs d o admin_up (flag x) (flag y)
  mac_addresses :
      (x y : Text)
      → d.mac_address ≡ some x
      → o.mac_address ≡ some y
      → x ≢ y
      → Differs d o mac_address (text x) (text y)
  speeds :
      (x y : Number)
      → d.speed_mbps ≡ some x
      → o.speed_mbps ≡ some y
      → ¬ IsSameNumber x y
      → Differs d o speed_mbps (number x) (number y)

get-none :
    (key : Text) (es : List (Text × Documented))
    → get key es ≡ none
    → (e : Text × Documented) → Elem e es
    → e.0 ≢ key
unfolding get
get-none key [] h e m = absurd m
get-none key ((j, d) ∷ es) h e m = elim (Option-cases (get key es)) [
  | inr (later, k) ↦ absurd (ground arith)
  | inl k ↦ elim m [
    | inl p ↦ (λ q.
        let hit = (same_iff j key).1 (sym (ap (λ (x : Text × Documented). x.0) p) ∙ q) in
        ground arith)
    | inr n ↦ get-none key es k e n
  ]
]

get-fresh :
    (key : Text) (es : List (Text × Documented))
    → ((e : Text × Documented) → Elem e es → e.0 ≢ key)
    → get key es ≡ none
unfolding get
get-fresh key [] h = refl
get-fresh key ((j, d) ∷ es) h =
    let rest = get-fresh key es (λ e m. h e (inr m)) in
    elim (Bool-cases (same j key)) [
      | inl k ↦ absurd (h (j, d) (inl refl) ((same_iff j key).0 k))
      | inr k ↦ ground arith
    ]

get-last :
    (key : Text) (before : List (Text × Documented)) (d : Documented)
    (after : List (Text × Documented))
    → get key after ≡ none
    → get key (before ++ (key, d) ∷ after) ≡ some d
unfolding get
get-last key [] d after h = let hit = (same_iff key key).1 refl in ground arith
get-last key ((j, e) ∷ before) d after h = let rest = get-last key before d after h in ground arith

get_iff :
    (key : Text) (es : List (Text × Documented)) (d : Documented)
    → (get key es ≡ some d) ↔ LastOf key es d
unfolding get
get_iff key es d = (to es, from)
  where
    to : (es : List (Text × Documented)) → get key es ≡ some d → LastOf key es d
    to [] h = absurd (cc)
    to ((j, e) ∷ es) h = elim (Option-cases (get key es)) [
      | inr (later, k) ↦
          let one : later ≡ d = ground arith in
          let (before, after, p, fresh) = to es (rw one at k) in
          ((j, e) ∷ before, after, ap (λ x. (j, e) ∷ x) p, fresh)
      | inl k ↦ elim (Bool-cases (same j key)) [
        | inr other_key ↦ absurd (ground arith)
        | inl hit ↦
            let one : e ≡ d = ground arith in
            let key_is = (same_iff j key).0 hit in
            ([], es, (λ i. (key_is i, one i) ∷ es), get-none key es k)
      ]
    ]

    from : LastOf key es d → get key es ≡ some d
    from (before, after, p, fresh) = rw p (get-last key before d after (get-fresh key after fresh))

named_iff :
    (lower : Text → Text) (name : Option Text) (es : List (Text × Documented)) (d : Documented)
    → (named lower name es ≡ some d) ↔ IsNamed lower es name d
named_iff lower none es d = ((λ h. absurd (cc)), (λ (t, e, n, l). absurd (cc)))
named_iff lower (some []) es d =
    ((λ h. absurd (cc)), (λ (t, e, n, l). absurd (n (sym (some-one e)))))
  where
    some-one : {a b : Text} → some a ≡ some b → a ≡ b
    some-one e = cc
named_iff lower (some (c ∷ t)) es d = (
  (λ h. (c ∷ t, refl, (λ e. cc), (get_iff (lower (c ∷ t)) es d).0 h)),
  (λ (u, e, n, l).
      (get_iff (lower (c ∷ t)) es d).1
        (let p : u ≡ c ∷ t = cc in subst (λ x. LastOf (lower x) es d) p l)),
)

pub documented_iff :
    (lower : Text → Text) (es : List (Text × Documented)) (o : Observed) (d : Documented)
    → (documented_of lower es o ≡ some d) ↔ IsDocumented lower es o d
unfolding documented_of
documented_iff lower es o d = elim (Option-cases (named lower o.name es)) [
  | inr (c, k) ↦ (
    (λ h. inl ((named_iff lower o.name es d).0 (let one : c ≡ d = ground arith in rw one at k))),
    (λ h. elim h [
      | inl n ↦ let p = (named_iff lower o.name es d).1 n in ground arith
      | inr (never, n) ↦ absurd (never c ((named_iff lower o.name es c).0 k))
    ]),
  )
  | inl k ↦ (
    (λ h. inr (
      (λ c n. let p = (named_iff lower o.name es c).1 n in cc),
      (named_iff lower o.description es d).0 (ground arith),
    )),
    (λ h. elim h [
      | inl n ↦ let p = (named_iff lower o.name es d).1 n in absurd (cc)
      | inr (never, n) ↦ let p = (named_iff lower o.description es d).1 n in ground arith
    ]),
  )
]

texts_iff :
    (a b : Option Text) (v w : Value)
    → (texts_differ a b ≡ some (v, w)) ↔ (
        (x : Text) × (y : Text) × (a ≡ some x)
        × (b ≡ some y)
        × (x ≢ y)
        × (v ≡ text x)
        × (w ≡ text y))
texts_iff none b v w = ((λ h. absurd (cc)), (λ (x, y, p, q, n, i, j). absurd (cc)))
texts_iff (some a) none v w = ((λ h. absurd (cc)), (λ (x, y, q, p, n, i, j). absurd (cc)))
texts_iff (some a) (some b) v w = elim (Bool-cases (same a b)) [
  | inl k ↦ (
    (λ h. absurd (ground arith)),
    (λ (x, y, p, q, n, f, g).
        absurd (n (let i : a ≡ x = cc in let j : b ≡ y = cc in sym i ∙ (same_iff a b).0 k ∙ j))),
  )
  | inr k ↦ (
    (λ h. (a, b, refl, refl, (λ e. let t = (same_iff a b).1 e in cc), ground arith, ground arith)),
    (λ (x, y, p, q, n, i, j). let e : a ≡ x = cc in let f : b ≡ y = cc in rw (k, i, j, e, f) refl),
  )
]

flags_iff :
    (a b : Option Bool) (v w : Value)
    → (flags_differ a b ≡ some (v, w)) ↔ (
        (x : Bool) × (y : Bool) × (a ≡ some x)
        × (b ≡ some y)
        × (x ≢ y)
        × (v ≡ flag x)
        × (w ≡ flag y))
flags_iff none b v w = ((λ h. absurd (cc)), (λ (x, y, p, q, n, i, j). absurd (cc)))
flags_iff (some a) none v w = ((λ h. absurd (cc)), (λ (x, y, q, p, n, i, j). absurd (cc)))
flags_iff (some true) (some true) v w =
    ((λ h. absurd (cc)), (λ (x, y, p, q, n, f, g). absurd (n (cc))))
flags_iff (some false) (some false) v w =
    ((λ h. absurd (cc)), (λ (x, y, p, q, n, f, g). absurd (n (cc))))
flags_iff (some true) (some false) v w = (
  (λ h. (true, false, refl, refl, (λ e. cc), cc, cc)),
  (λ (x, y, p, q, n, i, j). let e : true ≡ x = cc in let f : false ≡ y = cc in cc),
)
flags_iff (some false) (some true) v w = (
  (λ h. (false, true, refl, refl, (λ e. cc), cc, cc)),
  (λ (x, y, p, q, n, i, j). let e : false ≡ x = cc in let f : true ≡ y = cc in cc),
)

leb-both : (m n : ℤ) → leb_ℤ m n && leb_ℤ n m ≡ true → m ≡ n
leb-both (pos a) (pos b) h = ap pos (ground arith)
leb-both (pos a) (negsuc b) h = absurd (ground arith)
leb-both (negsuc a) (pos b) h = absurd (ground arith)
leb-both (negsuc a) (negsuc b) h = ap negsuc (ground arith)

leb_self : (m : ℤ) → leb_ℤ m m && leb_ℤ m m ≡ true
leb_self (pos a) = ground arith
leb_self (negsuc a) = ground arith

same_number_iff : (x y : Number) → (same_number x y ≡ true) ↔ IsSameNumber x y
same_number_iff (integer m) (integer n) = (
  (λ h. (m, refl, ap integer (sym (leb-both m n h)))),
  (λ (k, p, q). let i : m ≡ k = cc in let j : n ≡ k = cc in rw (i, j) (leb_self k)),
)
same_number_iff (integer m) other = ((λ h. absurd (cc)), (λ (k, p, q). absurd (cc)))
same_number_iff other y = ((λ h. absurd (cc)), (λ (k, p, q). absurd (cc)))

numbers_iff :
    (a b : Option Number) (v w : Value)
    → (numbers_differ a b ≡ some (v, w)) ↔ (
        (x : Number) × (y : Number) × (a ≡ some x)
        × (b ≡ some y)
        × (¬ IsSameNumber x y)
        × (v ≡ number x)
        × (w ≡ number y))
numbers_iff none b v w = ((λ h. absurd (cc)), (λ (x, y, p, q, n, i, j). absurd (cc)))
numbers_iff (some a) none v w = ((λ h. absurd (cc)), (λ (x, y, q, p, n, i, j). absurd (cc)))
numbers_iff (some a) (some b) v w = elim (Bool-cases (same_number a b)) [
  | inl k ↦ (
    (λ h. absurd (ground arith)),
    (λ (x, y, p, q, n, f, g).
        absurd (
          n (
            let i : a ≡ x = cc in let j : b ≡ y = cc in (same_number_iff x y).0 (rw (i, j) at k)))),
  )
  | inr k ↦ (
    (λ h. (
      a,
      b,
      refl,
      refl,
      (λ e. let t = (same_number_iff a b).1 e in cc),
      ground arith,
      ground arith,
    )),
    (λ (x, y, p, q, n, i, j). let e : a ≡ x = cc in let f : b ≡ y = cc in rw (k, i, j, e, f) refl),
  )
]

pub difference-Differs :
    (d : Documented) (o : Observed) (f : Field) (v w : Value)
    → difference d o f ≡ some (v, w)
    → Differs d o f v w
unfolding difference
difference-Differs d o hostname v w h = absurd (cc)
difference-Differs d o description v w h =
    let (x, y, p, q, n, i, j) = (texts_iff d.description o.description v w).0 h in
    rw (i, j) (descriptions x y p q n)
difference-Differs d o admin_up v w h =
    let (x, y, p, q, n, i, j) = (flags_iff d.admin_up o.admin_up v w).0 h in
    rw (i, j) (admin_states x y p q n)
difference-Differs d o mac_address v w h =
    let (x, y, p, q, n, i, j) = (texts_iff d.mac_address o.mac_address v w).0 h in
    rw (i, j) (mac_addresses x y p q n)
difference-Differs d o speed_mbps v w h =
    let (x, y, p, q, n, i, j) = (numbers_iff d.speed_mbps o.speed_mbps v w).0 h in
    rw (i, j) (speeds x y p q n)

pub Differs-difference :
    (d : Documented) (o : Observed) (f : Field) (v w : Value)
    → Differs d o f v w
    → difference d o f ≡ some (v, w)
unfolding difference
Differs-difference d o _ _ _ (descriptions x y p q n) =
    (texts_iff d.description o.description (text x) (text y)).1 (x, y, p, q, n, refl, refl)
Differs-difference d o _ _ _ (admin_states x y p q n) =
    (flags_iff d.admin_up o.admin_up (flag x) (flag y)).1 (x, y, p, q, n, refl, refl)
Differs-difference d o _ _ _ (mac_addresses x y p q n) =
    (texts_iff d.mac_address o.mac_address (text x) (text y)).1 (x, y, p, q, n, refl, refl)
Differs-difference d o _ _ _ (speeds x y p q n) =
    (numbers_iff d.speed_mbps o.speed_mbps (number x) (number y)).1 (x, y, p, q, n, refl, refl)

-- Two host names, both there and not empty, that differ.
abbrev pub HostsDiffer : Option Text → Option Text → Value → Value → Type 0
HostsDiffer a b v w =
    (x : Text) × (y : Text) × (a ≡ some x)
    × (b ≡ some y)
    × (x ≢ [])
    × (y ≢ [])
    × (x ≢ y)
    × (v ≡ text x)
    × (w ≡ text y)

given_iff : (a : Option Text) (x : Text) → a ≡ some x → (is_given a ≡ true) ↔ (x ≢ [])
given_iff none x e = absurd (cc)
given_iff (some []) x e = ((λ h. absurd (cc)), (λ n. absurd (n (let p : [] ≡ x = cc in sym p))))
given_iff (some (c ∷ t)) x e = ((λ h k. let p : c ∷ t ≡ x = cc in cc), (λ n. refl))

pub host_iff :
    (a b : Option Text) (v w : Value) → (host_difference a b ≡ some (v, w)) ↔ HostsDiffer a b v w
host_iff a b v w = (
  (λ h.
      let both : is_given a && is_given b ≡ true = ground arith in
      let (x, y, p, q, n, i, j) = (texts_iff a b v w).0 (ground arith) in
      (
        x,
        y,
        p,
        q,
        (given_iff a x p).0 (ground arith),
        (given_iff b y q).0 (ground arith),
        n,
        i,
        j,
      )),
  (λ (x, y, p, q, k, l, n, i, j).
      let g = (given_iff a x p).1 k in
      let g2 = (given_iff b y q).1 l in
      let h = (texts_iff a b v w).1 (x, y, p, q, n, i, j) in ground arith),
)

pub open_iff :
    (device : Text) (r : Drift)
    → (is_open_of device r ≡ true) ↔ ((r.device ≡ device) × (r.status ≡ pending))
open_iff device r = (
  (λ h. ((same_iff r.device device).0 (ground arith), status_is r.status (ground arith))),
  (λ (p, q). let t = (same_iff r.device device).1 p in rw (t, q) refl),
)
  where
    status_is : (x : DriftStatus) → is_pending x ≡ true → x ≡ pending
    status_is pending h = refl
    status_is accepted h = absurd (cc)
    status_is ignored h = absurd (cc)
