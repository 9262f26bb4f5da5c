-- ===== src/Ipam/Planning/Gaps.antt =====
-- The gaps of a plan are what the unavailable addresses leave of the usable range.
use management_app.Base.{
  ℕ, ◌+◌, ◌≤◌, ◌<◌, ◌≡◌, ◌⊎◌, inl, inr, ◌↔◌, arith, false, not, List, [], ◌∷◌, leb, ltb, ◌&&◌, ◌==◌,
  filter, Elem, Elem-of_filter, All, All-Elem, All-of_Elem, Bool-cases, ok, bind-eq-ok,
}
use mathlib.Core.Path.{subst}
use management_app.Collections.Ascending.{
  ascending_set, IsAscending, ascending_set-IsAscending, Elem-ascending_set,
}
use management_app.Text.{Text}
use management_app.Discovery.Networks.{Platform}
use management_app.Ipam.Planning.{
  Gap, usable_gaps, SubnetPlan, AddressRow, Ipv4Cidr, ipv4_cidr, numbers_of, first_usable,
  last_usable, plan_of, calculate_ipv4_subnet_plan,
}

-- The address lies in one of the gaps.
abbrev pub InGap : ℕ → List Gap → Type 0
InGap a [] = ⊥
InGap a (g ∷ gs) = ((g.start ≤ a) × (a ≤ g.end)) ⊎ InGap a gs

abbrev pub total_count : List Gap → ℕ
total_count [] = 0
total_count (g ∷ gs) = g.count + total_count gs

below_out : (a v : ℕ) (vs : List ℕ) → (Elem a vs → v < a) → a < v → ¬ Elem a (v ∷ vs)
below_out a v vs below low (inl e) = absurd (omega (arith, low, e))
below_out a v vs below low (inr m) = absurd (omega (arith, low, below m))

eq_or_greater : (a v : ℕ) → ltb a v ≡ false → (a ≡ v) ⊎ (v + 1 ≤ a)
eq_or_greater a v h = ground arith

inside :
    (first last : ℕ) (numbers : List ℕ)
    → All
        (λ v. (first ≤ v) × (v ≤ last))
        (ascending_set (filter (λ v. leb first v && leb v last) numbers))
inside first last numbers = All-of_Elem _ _ (λ v m.
    let k = (Elem-ascending_set v (filter (λ v. leb first v && leb v last) numbers)).0 m in
    let t = (Elem-of_filter (λ v. leb first v && leb v last) v numbers k).1 in
    (ground (arith, t), ground (arith, t)))

gaps_iff :
    (a cursor last : ℕ) (vs : List ℕ)
    → IsAscending vs
    → All (λ v. (cursor ≤ v) × (v ≤ last)) vs
    → InGap a (usable_gaps cursor last vs) ↔ ((cursor ≤ a) × (a ≤ last) × (¬ Elem a vs))
unfolding usable_gaps
gaps_iff a cursor last [] asc held = elim (Bool-cases (leb cursor last)) [
  | inl some_there ↦
      rw some_there
        ((λ m. elim m [ inl g ↦ (g.0, g.1, (λ k. k)) | inr n ↦ absurd n ]), (λ m. inl (m.0, m.1)))
  | inr none_there ↦ rw none_there ((λ m. absurd m), (λ m. absurd (ground arith)))
]
gaps_iff a cursor last (v ∷ vs) (above, asc) (h, hs) =
    let rest = gaps_iff a (v + 1) last vs asc (
      All-of_Elem _ vs (λ x m. (
        omega (arith, All-Elem (λ m. v < m) vs above m),
        (All-Elem (λ v. (cursor ≤ v) × (v ≤ last)) vs hs m).1,
      ))) in
    let below : Elem a vs → v < a = All-Elem (λ m. v < m) vs above in
    elim (Bool-cases (ltb cursor v)) [
      | inl gap ↦ rw gap (
        (λ m. elim m [
          | inl g ↦
              let low : a < v = ground (arith, g.1, gap) in
              (g.0, omega (arith, low, h.1), below_out a v vs below low)
          | inr n ↦ behind (rest.0 n)
        ]),
        (λ m. elim (Bool-cases (ltb a v)) [
          | inl low ↦ inl (m.0, ground (arith, low))
          | inr high ↦ inr (rest.1 (beyond m high))
        ]),
      )
      | inr no_gap ↦
          rw no_gap
            ((λ n. behind (rest.0 n)), (λ m. rest.1 (beyond m (ground (arith, m.0, no_gap)))))
    ]
  where
    behind :
        (v + 1 ≤ a) × (a ≤ last) × (¬ Elem a vs) → (cursor ≤ a) × (a ≤ last) × (¬ Elem a (v ∷ vs))
    behind (x, y, z) = (
      omega (arith, x, h.0),
      y,
      (λ k. elim k [ inl e ↦ absurd (omega (arith, x, e)) | inr n ↦ z n ]),
    )

    beyond :
        (cursor ≤ a) × (a ≤ last) × (¬ Elem a (v ∷ vs))
        → ltb a v ≡ false
        → (v + 1 ≤ a) × (a ≤ last) × (¬ Elem a vs)
    beyond (x, y, z) high = (greater (eq_or_greater a v high), y, (λ k. z (inr k)))
      where
        greater : (a ≡ v) ⊎ (v + 1 ≤ a) → v + 1 ≤ a
        greater (inl e) = absurd (z (inl e))
        greater (inr g) = g

abbrev Fills : Ipv4Cidr → SubnetPlan → ℕ → Type 0
Fills info plan a =
    InGap a plan.gaps
    ↔ ((first_usable info ≤ a) × (a ≤ last_usable info) × (¬ Elem a plan.unavailable_addresses))

plan_of-Fills : (info : Ipv4Cidr) (numbers : List ℕ) (a : ℕ) → Fills info (plan_of info numbers) a
plan_of-Fills info numbers a =
    let values = filter (λ v. leb (first_usable info) v && leb v (last_usable info)) numbers in
    gaps_iff a (first_usable info) (last_usable info) (ascending_set values)
      (ascending_set-IsAscending values) (inside (first_usable info) (last_usable info) numbers)

-- The addresses in the gaps of a plan are exactly those of the usable range of the subnet that are
-- not listed as unavailable.
pub plan_gaps_iff :
    (js : Platform) (cidr : Text) (rows : List AddressRow) (info : Ipv4Cidr) (plan : SubnetPlan)
    (a : ℕ)
    → ipv4_cidr js cidr ≡ ok info
    → calculate_ipv4_subnet_plan js cidr rows ≡ ok plan
    → InGap a plan.gaps
      ↔ ((first_usable info ≤ a) × (a ≤ last_usable info) × (¬ Elem a plan.unavailable_addresses))
unfolding calculate_ipv4_subnet_plan
plan_gaps_iff js cidr rows info plan a read h =
    let (i, read_too, h1) = bind-eq-ok (ipv4_cidr js cidr) _ h in
    let (numbers, _, h2) =
      bind-eq-ok (numbers_of js (filter (λ (r : AddressRow). not (r.state == "FREE")) rows)) _ h1 in
    let same : i ≡ info = cc in
    let planned : plan_of i numbers ≡ plan = cc in
    subst (λ i. Fills i plan a) same (subst (λ p. Fills i p a) planned (plan_of-Fills i numbers a))
