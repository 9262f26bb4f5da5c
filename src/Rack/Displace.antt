-- ===== src/Rack/Displace.antt =====
-- The loop that moves the collided devices out of the way.
use mathlib.Core.List.{append_assoc, append-nil}
use management_app.Base.{
  ◌≡◌, refl, ◌⊎◌, inl, inr, true, some, List, [], ◌∷◌, ◌++◌, arith, Elem, Elem-append, Option-cases,
}
use management_app.Base.Int.{pos, ◌≤ℤ◌}
use management_app.Rack.{Device, Rack, candidate, displace, fits, unit_end}
use management_app.Rack.Units.{IsLayout, Compatible, Compatible-symm, fits-Compatible, fits_bounds}

pub IsLayout-snoc :
    (ds : List Device) (c : Device)
    → IsLayout ds
    → ((e : Device) → Elem e ds → Compatible c e)
    → IsLayout (ds ++ c ∷ [])
IsLayout-snoc ds c layout free d e md me =
    pair (Elem-append d ds (c ∷ []) md) (Elem-append e ds (c ∷ []) me)
  where
    pair : Elem d ds ⊎ Elem d (c ∷ []) → Elem e ds ⊎ Elem e (c ∷ []) → Compatible d e
    pair (inl a) (inl b) = layout d e a b
    pair (inl a) (inr (inl b)) = rw b (Compatible-symm c d (free d a))
    pair (inr (inl a)) (inl b) = rw a (free e b)
    pair (inr (inl a)) (inr (inl b)) = λ ne. absurd (ne (cc))
    pair (inl a) (inr (inr none_left)) = absurd none_left
    pair (inr (inl a)) (inr (inr none_left)) = absurd none_left
    pair (inr (inr none_left)) _ = absurd none_left

displace-nil : (r : Rack) (occupied cs : List Device) → displace r occupied [] ≡ some cs → cs ≡ []
unfolding displace
displace-nil r occupied cs h = ground arith

-- One round of the loop.
displace_round :
    (r : Rack) (occupied : List Device) (d : Device) (ds cs : List Device)
    → displace r occupied (d ∷ ds) ≡ some cs
    → (rest : List Device) × (fits (candidate d) r occupied ≡ true)
      × (displace r (occupied ++ candidate d ∷ []) ds ≡ some rest)
      × (cs ≡ candidate d ∷ rest)
unfolding displace
displace_round r occupied d ds cs h =
    elim (Option-cases (displace r (occupied ++ candidate d ∷ []) ds)) [
      | inl e ↦ absurd (ground (arith, e))
      | inr (rest, e) ↦ (rest, ground (arith, e), e, ground (arith, e))
    ]

pub displace-IsLayout :
    (r : Rack) (occupied ds : List Device) (cs : List Device)
    → IsLayout occupied
    → displace r occupied ds ≡ some cs
    → IsLayout (occupied ++ cs)
displace-IsLayout r occupied [] cs layout h =
    rw (displace-nil r occupied cs h) (rw append-nil layout)
displace-IsLayout r occupied (d ∷ ds) cs layout h =
    let (rest, fit, more, e) = displace_round r occupied d ds cs h in
    let step =
      IsLayout-snoc occupied (candidate d) layout (fits-Compatible (candidate d) r occupied fit) in
    let final = displace-IsLayout r (occupied ++ candidate d ∷ []) ds rest step more in
    rw e (rw (append_assoc occupied (candidate d ∷ []) rest) at final)

-- The displaced devices are the given ones, each one block lower, within the rack.
pub Elem-of_displace :
    (r : Rack) (occupied ds cs : List Device) (c : Device)
    → displace r occupied ds ≡ some cs
    → Elem c cs
    → (d : Device) × Elem d ds
      × (c ≡ candidate d)
      × (pos 1 ≤ℤ c.rack_unit_start)
      × (unit_end c ≤ℤ r.units)
unfolding displace
Elem-of_displace r occupied [] cs c h m =
    let none_left : Elem c [] = rw (displace-nil r occupied cs h) at m in absurd none_left
Elem-of_displace r occupied (d ∷ ds) cs c h m =
    let (rest, fit, more, e) = displace_round r occupied d ds cs h in
    go rest fit e (λ n. Elem-of_displace r (occupied ++ candidate d ∷ []) ds rest c more n)
      (rw e at m)
  where
    Found : List Device → Type 0
    Found xs =
        (d : Device) × Elem d xs
        × (c ≡ candidate d)
        × (pos 1 ≤ℤ c.rack_unit_start)
        × (unit_end c ≤ℤ r.units)

    go :
        (rest : List Device)
        → fits (candidate d) r occupied ≡ true
        → cs ≡ candidate d ∷ rest
        → (Elem c rest → Found ds)
        → Elem c (candidate d ∷ rest)
        → Found (d ∷ ds)
    go rest fit e more (inl here) =
        let (lo, hi) = fits_bounds (candidate d) r occupied fit in
        (d, inl refl, here, rw here lo, rw here hi)
    go rest fit e more (inr later) =
        let (x, m, same, lo, hi) = more later in (x, inr m, same, lo, hi)

pub Elem-displace :
    (r : Rack) (occupied ds cs : List Device) (d : Device)
    → displace r occupied ds ≡ some cs
    → Elem d ds
    → Elem (candidate d) cs
Elem-displace r occupied [] cs d h m = absurd m
Elem-displace r occupied (x ∷ ds) cs d h (inl e) =
    let (rest, fit, more, same) = displace_round r occupied x ds cs h in rw same (inl (rw e))
Elem-displace r occupied (x ∷ ds) cs d h (inr m) =
    let (rest, fit, more, same) = displace_round r occupied x ds cs h in
    rw same (inr (Elem-displace r (occupied ++ candidate x ∷ []) ds rest d more m))
