-- ===== src/Snmp/Service/Subnets/Longest.antt =====
-- The subnet that an address is put under when an enrollment is accepted.
use Prim.Native.Nat.{bit_and}
use management_app.Base.{
  ℕ, ◌-◌, ◌*◌, ◌/◌, ◌^◌, ◌≤◌, ◌<◌, ◌≡◌, refl, sym, ◌∙◌, ap, ◌⊎◌, ◌↔◌, inl, inr, arith, Bool, true,
  Option, none, some, List, [], ◌∷◌, filter, leb, leb→le, eqb_iff, Elem, All, Elem-of_filter,
  Elem-filter, Bool-cases, Option-cases,
}
use management_app.Base.Number.{Number, integer, other}
use management_app.Base.Int.{pos, negsuc}
use management_app.Base.Sort.{insert, sort, Elem-of_insert, Elem-of_sort, Elem-sort}
use native.Mathlib.Nat.{mul-div_cancel, one-le-pow}
use management_app.Text.{Text, split, number}
use management_app.Discovery.Networks.{Platform, first_piece, second_number, prefix_within}
use management_app.Discovery.Networks.Blocks.{network_mask_rounds_down}
use management_app.Discovery.Hosts.{mask32}
use management_app.Discovery.Hosts.Words.{mask32_lem}
use management_app.Ipam.Planning.{octets, four_octets}
use management_app.Snmp.Service.Subnets.{
  Subnet, ipv4_number, prefix_of, under_mask, in_cidr, bits_of, first_of, most_specific_subnet,
}

prefix_within_bound : (most : ℕ) (n : Number) (v : ℕ) → prefix_within most n ≡ some v → v ≤ most
prefix_within_bound most (integer (pos n)) v h = ground arith
prefix_within_bound most (integer (negsuc n)) v h = absurd (cc)
prefix_within_bound most other v h = absurd (cc)

octets_bound :
    (js : Platform) (parts : List Text) (ns : List ℕ)
    → octets js parts ≡ some ns
    → All (λ n. n ≤ 255) ns
unfolding octets
octets_bound js [] [] h = tt
octets_bound js [] (n ∷ ns) h = absurd (cc)
octets_bound js (part ∷ parts) [] h = absurd (ground arith)
octets_bound js (part ∷ parts) (n ∷ ns) h =
    elim (Option-cases (prefix_within 255 (number js.other_forms part))) [
      | inl e ↦ absurd (ground arith)
      | inr (v, e) ↦ elim (Option-cases (octets js parts)) [
        | inl f ↦ absurd (ground arith)
        | inr (vs, f) ↦
            let both : (v ≡ n) × (vs ≡ ns) = ground arith in
            (
              rw (← both.0) (prefix_within_bound 255 (number js.other_forms part) v e),
              octets_bound js parts ns (rw (← both.1) f),
            )
      ]
    ]

four_octets_bound :
    (ns : List ℕ) (v : ℕ) → All (λ n. n ≤ 255) ns → four_octets ns ≡ some v → v < 2 ^ 32
four_octets_bound (a ∷ b ∷ c ∷ d ∷ []) v h e = ground arith
four_octets_bound [] v h e = absurd (cc)
four_octets_bound (a ∷ []) v h e = absurd (cc)
four_octets_bound (a ∷ b ∷ []) v h e = absurd (cc)
four_octets_bound (a ∷ b ∷ c ∷ []) v h e = absurd (cc)
four_octets_bound (a ∷ b ∷ c ∷ d ∷ x ∷ xs) v h e = absurd (cc)

ipv4_number_bound :
    (js : Platform) (address : Text) (v : ℕ) → ipv4_number js address ≡ some v → v < 2 ^ 32
unfolding ipv4_number
ipv4_number_bound js address v h = elim (Option-cases (octets js (split b'.' address))) [
  | inl e ↦ absurd (ground arith)
  | inr (ns, e) ↦ four_octets_bound ns v (octets_bound js (split b'.' address) ns e) (ground arith)
]

-- An address lies in a block when both have the same high bits.
abbrev pub Contains : Platform → Text → Subnet → Type 0
Contains js address s =
    (ip network bits : ℕ) × (ipv4_number js address ≡ some ip)
    × (ipv4_number js (first_piece (split b'/' s.cidr)) ≡ some network)
    × (prefix_of js s.cidr ≡ some bits)
    × (ip / 2 ^ (32 - bits) ≡ network / 2 ^ (32 - bits))

masked :
    (v bits : ℕ)
    → v < 2 ^ 32
    → bits ≤ 32
    → bit_and v (mask32 bits) ≡ v / 2 ^ (32 - bits) * 2 ^ (32 - bits)
masked v bits small h =
    rw (mask32_lem bits h) (network_mask_rounds_down 32 (32 - bits) v (omega arith) small)

blocks : (q r k : ℕ) → q * 2 ^ k ≡ r * 2 ^ k → q ≡ r
blocks q r k h =
    sym (mul-div_cancel q (omega (arith, one-le-pow k 2)))
    ∙ ap (λ (t : ℕ). t / 2 ^ k) h
    ∙ mul-div_cancel r (omega (arith, one-le-pow k 2))

under_mask-cases :
    (a b c : Option ℕ)
    → under_mask a b c ≡ true
    → (ip network bits : ℕ) × (a ≡ some ip)
      × (b ≡ some network)
      × (c ≡ some bits)
      × (bit_and ip (mask32 bits) ≡ bit_and network (mask32 bits))
under_mask-cases (some a) (some b) (some c) h =
    (a, b, c, refl, refl, refl, (eqb_iff (bit_and a (mask32 c)) (bit_and b (mask32 c))).0 h)
under_mask-cases none b c h = absurd (cc)
under_mask-cases (some a) none c h = absurd (cc)
under_mask-cases (some a) (some b) none h = absurd (cc)

prefix_bound : (js : Platform) (s : Subnet) (bits : ℕ) → prefix_of js s.cidr ≡ some bits → bits ≤ 32
prefix_bound js s bits h = prefix_within_bound 32 (second_number js (split b'/' s.cidr)) bits h

in_cidr_iff :
    (js : Platform) (address : Text) (s : Subnet)
    → (in_cidr js address s.cidr ≡ true) ↔ Contains js address s
unfolding in_cidr
in_cidr_iff js address s = (there, back)
  where
    there : in_cidr js address s.cidr ≡ true → Contains js address s
    there h =
        let (ip, network, bits, e, f, g, k) =
          under_mask-cases (ipv4_number js address)
            (ipv4_number js (first_piece (split b'/' s.cidr))) (prefix_of js s.cidr) h in
        let small = prefix_bound js s bits g in
        (
          ip,
          network,
          bits,
          e,
          f,
          g,
          blocks (ip / 2 ^ (32 - bits)) (network / 2 ^ (32 - bits)) (32 - bits) (
              sym (masked ip bits (ipv4_number_bound js address ip e) small)
              ∙ k
              ∙ masked network bits
                  (ipv4_number_bound js (first_piece (split b'/' s.cidr)) network f) small),
        )

    back : Contains js address s → in_cidr js address s.cidr ≡ true
    back (ip, network, bits, e, f, g, k) =
        let small = prefix_bound js s bits g in
        let same =
          masked ip bits (ipv4_number_bound js address ip e) small
          ∙ ap (λ (t : ℕ). t * 2 ^ (32 - bits)) k
          ∙ sym (
              masked network bits (ipv4_number_bound js (first_piece (split b'/' s.cidr)) network f)
                small) in
        rw (e, f, g) ((eqb_iff (bit_and ip (mask32 bits)) (bit_and network (mask32 bits))).1 same)

module _ {A : Type 0} (size : A → ℕ) where
  abbrev larger : A → A → Bool
  larger a b = leb (size b) (size a)

  IsFirst : List A → Type 0
  IsFirst xs = (s t : A) → first_of xs ≡ some s → Elem t xs → size t ≤ size s

  insert-IsFirst : (x : A) (ys : List A) → IsFirst ys → IsFirst (insert larger x ys)
  unfolding insert IsFirst
  insert-IsFirst x [] ih s t h (inl e) = let f : x ≡ s = cc in rw (e, f) (omega arith)
  insert-IsFirst x [] ih s t h (inr m) = absurd m
  insert-IsFirst x (y ∷ ys) ih s t h m = elim (Bool-cases (larger x y)) [
    | inl l ↦
        let f : x ≡ s = ground arith in
        let g = leb→le (size y) (size x) l in
        let k : (t ≡ x) ⊎ Elem t (y ∷ ys) = rw l at m in
        elim k [
          | inl e ↦ rw (e, f) (omega arith)
          | inr n ↦ let b = ih y t refl n in rw (← f) (omega arith)
        ]
    | inr l ↦
        let f : y ≡ s = ground arith in
        let k : (t ≡ y) ⊎ Elem t (insert larger x ys) = rw l at m in
        elim k [
          | inl e ↦ rw (e, f) (omega arith)
          | inr n ↦ elim (Elem-of_insert larger t x ys n) [
            | inl e ↦ rw (e, ← f) (ground arith)
            | inr n ↦ rw (← f) (ih y t refl (inr n))
          ]
        ]
  ]

  sort-IsFirst : (xs : List A) → IsFirst (sort larger xs)
  unfolding sort IsFirst
  sort-IsFirst [] s t h m = absurd m
  sort-IsFirst (x ∷ xs) s t h m = insert-IsFirst x (sort larger xs) (sort-IsFirst xs) s t h m

first-Elem : {A : Type 0} (s : A) (xs : List A) → first_of xs ≡ some s → Elem s xs
first-Elem s [] h = absurd (cc)
first-Elem s (x ∷ xs) h = inl (cc)

none-first : {A : Type 0} (xs : List A) (t : A) → first_of xs ≡ none → ¬ Elem t xs
none-first [] t h m = m
none-first (x ∷ xs) t h m = absurd (cc)

-- The subnet of an address: it contains the address, and of those that do none has a longer prefix;
-- and no subnet, where none contains it.
abbrev pub IsLongest : Platform → Text → List Subnet → Option Subnet → Type 0
IsLongest js address subnets none = (t : Subnet) → Elem t subnets → ¬ Contains js address t
IsLongest js address subnets (some s) =
    Elem s subnets
    × Contains js address s
    × ((t : Subnet) → Elem t subnets → Contains js address t → bits_of js t ≤ bits_of js s)

-- The subnet that is chosen for an address contains it, in the sense of the blocks of addresses, and of
-- the subnets that do it has the longest prefix; where none is chosen, no subnet contains the address.
pub most_specific_subnet-IsLongest :
    (js : Platform) (address : Text) (subnets : List Subnet)
    → IsLongest js address subnets (most_specific_subnet js address subnets)
unfolding most_specific_subnet IsFirst
most_specific_subnet-IsLongest js address subnets = by_result (first_of sorted) refl
  where
    tests : Subnet → Bool
    tests s = in_cidr js address s.cidr

    sorted : List Subnet
    sorted = sort (larger (bits_of js)) (filter tests subnets)

    within : (t : Subnet) → Elem t subnets → Contains js address t → Elem t sorted
    within t k j =
        Elem-sort (larger (bits_of js)) t (filter tests subnets)
          (Elem-filter tests t subnets k ((in_cidr_iff js address t).1 j))

    by_result : (o : Option Subnet) → first_of sorted ≡ o → IsLongest js address subnets o
    by_result none h = λ t k j. none-first sorted t h (within t k j)
    by_result (some s) h =
        let m =
          Elem-of_sort (larger (bits_of js)) s (filter tests subnets) (first-Elem s sorted h) in
        let (n, i) = Elem-of_filter tests s subnets m in
        (
          n,
          (in_cidr_iff js address s).0 i,
          λ t k j. sort-IsFirst (bits_of js) (filter tests subnets) s t h (within t k j),
        )
