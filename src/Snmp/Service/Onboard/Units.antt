-- ===== src/Snmp/Service/Onboard/Units.antt =====
-- The units of a rack that a device takes up, as `validateOnboardingRack` of snmp.service.ts sees them.
use management_app.Base.{
  ℕ, ◌+◌, ◌-◌, ◌≤◌, ◌<◌, ◌≡◌, refl, sym, ◌∙◌, inl, inr, arith, true, false, Option, none, some,
  List, Elem, Elem-filter, any, any-false, filter, leb, Option-cases, ok, guard_bind, or_throw_bind,
}
use mathlib.Core.Path.{subst}
use management_app.Text.{Text}
use management_app.Text.Sets.{same, same_iff}
use management_app.Snmp.Service.Secrets.{given}
use management_app.Snmp.Service.Accept.{Device}
use management_app.Snmp.Service.Exclusive.{given-some}
use management_app.Snmp.Service.Onboard.{
  Rack, OnboardDto, given_number, is_some, is_in_rack, meets, occupies, validate_place,
  validate_onboarding_rack,
}

-- A device takes up a unit of a rack.
pub record Covers (rack : Text) (u : ℕ) (d : Device) : Type 0 where
  pub start : ℕ
  pub size : ℕ
  pub in_rack : d.rack_id ≡ some rack
  pub at : d.rack_unit_start ≡ some start
  pub high : d.rack_unit_size ≡ some size
  pub from : start ≤ u
  pub to : u < start + size

given_number-some : (o : Option ℕ) (n : ℕ) → given_number o ≡ some n → (o ≡ some n) × (1 ≤ n)
given_number-some none n h = absurd (cc)
given_number-some (some m) n h = (ground arith, ground arith)

given_number-none : (n : ℕ) → is_some (given_number (some n)) ≡ false → n ≡ 0
given_number-none n h = ground arith

-- What a place that is accepted shows.
some-injective : {A : Type 0} {a b : A} → some a ≡ some b → a ≡ b
some-injective h = cc

validate_place-ok :
    (rack : Rack) (id site : Text) (start size : ℕ) (devices : List Device)
    → validate_place rack id site start size devices ≡ ok tt
    → (rack.site_id ≡ site)
      × (start + size - 1 ≤ rack.units)
      × (any (occupies start (start + size - 1)) (filter (is_in_rack id) devices) ≡ false)
unfolding validate_place
validate_place-ok rack id site start size devices h =
    let (s, h1) = guard_bind (same rack.site_id site) _ _ h in
    let (b, h2) = guard_bind (leb (start + size - 1) rack.units) _ _ h1 in
    ((same_iff rack.site_id site).0 s, ground arith, ground arith)

meets-true :
    (start last from size u : ℕ)
    → 1 ≤ from
    → from ≤ u
    → u < from + size
    → start ≤ u
    → u ≤ last
    → meets start last (given_number (some from)) (given_number (some size)) ≡ true
meets-true start last from size u = ground arith

-- A device on the units of the rack would have been seen.
seen :
    (id : Text) (u start size : ℕ) (d : Device) (devices : List Device)
    → any (occupies start (start + size - 1)) (filter (is_in_rack id) devices) ≡ false
    → Elem d devices
    → (c : Covers id u d) → 1 ≤ c.start
    → start ≤ u
    → ¬ (u < start + size)
seen id u start size d devices free m c high low to =
    let in_rack : is_in_rack id d ≡ true = rw c.in_rack ((same_iff id id).1 refl) in
    let unseen =
      any-false (occupies start (start + size - 1)) d (filter (is_in_rack id) devices) free
        (Elem-filter (is_in_rack id) d devices m in_rack) in
    let met =
      meets-true start (start + size - 1) c.start c.size u high c.from c.to low (omega arith) in
    let seen_too : occupies start (start + size - 1) d ≡ true = rw (c.at, c.high) met in cc

pub at_start : (id : Text) (u : ℕ) (d : Device) (c : Covers id u d) → Covers id c.start d
at_start id u d c = record {
  start = c.start;
  size = c.size;
  in_rack = c.in_rack;
  at = c.at;
  high = c.high;
  from = omega arith;
  to = let low = c.from in let to = c.to in omega arith;
}

module _ (racks : Text → Option Rack) (dto : OnboardDto) (devices : List Device) where
  -- What is known of a request whose place is accepted, of each unit that its device takes up.
  pub record Accepted (id : Text) (u : ℕ) : Type 0 where
    pub rack : Rack
    pub is_rack : racks id ≡ some rack
    pub at_site : rack.site_id ≡ dto.site_id
    pub low : 1 ≤ u
    pub high : u ≤ rack.units
    pub free : (d : Device) → Elem d devices → (c : Covers id u d) → ¬ (1 ≤ c.start)

  unplaced :
      given dto.rack_id ≡ none
      → validate_onboarding_rack racks dto devices ≡ ok tt
      → (is_some (given_number dto.rack_unit_start) ≡ false)
        × (is_some (given_number dto.rack_unit_size) ≡ false)
  unfolding validate_onboarding_rack
  unplaced k h = (ground arith, ground arith)

  chosen :
      (id : Text)
      → given dto.rack_id ≡ some id
      → validate_onboarding_rack racks dto devices ≡ ok tt
      → (start size : ℕ) × (rack : Rack) × (given_number dto.rack_unit_start ≡ some start)
        × (given_number dto.rack_unit_size ≡ some size)
        × (racks id ≡ some rack)
        × (validate_place rack id dto.site_id start size devices ≡ ok tt)
  unfolding validate_onboarding_rack
  chosen id k h =
      let (start, is_start, h1) =
        or_throw_bind (given_number dto.rack_unit_start) _ _
          (rw (k, validate_onboarding_rack) at h) in
      let (size, is_size, h2) = or_throw_bind (given_number dto.rack_unit_size) _ _ h1 in
      let (rack, is_rack, h3) = or_throw_bind (racks id) _ _ h2 in
      (start, size, rack, is_start, is_size, is_rack, h3)

  accepted :
      (id : Text) (u start size : ℕ) (rack : Rack)
      → start ≤ u
      → u < start + size
      → racks id ≡ some rack
      → 1 ≤ start
      → validate_place rack id dto.site_id start size devices ≡ ok tt
      → Accepted id u
  accepted id u start size rack from to is_rack low h =
      let (site, bound, free) = validate_place-ok rack id dto.site_id start size devices h in
      record {
        rack = rack;
        is_rack = is_rack;
        at_site = site;
        low = omega arith;
        high = omega arith;
        free = λ d m c high. seen id u start size d devices free m c high from to;
      }

  pub rack-Accepted :
      validate_onboarding_rack racks dto devices ≡ ok tt
      → (id : Text) (u start size : ℕ) → dto.rack_id ≡ some id
      → dto.rack_unit_start ≡ some start
      → dto.rack_unit_size ≡ some size
      → start ≤ u
      → u < start + size
      → Accepted id u
  unfolding validate_onboarding_rack
  rack-Accepted h id u start size in_rack at high from to =
      elim (Option-cases (given dto.rack_id)) [
        | inl n ↦
            let (p, q) = unplaced n h in
            let s = given_number-none start (subst (λ x. is_some (given_number x) ≡ false) at p) in
            let z = given_number-none size (subst (λ x. is_some (given_number x) ≡ false) high q) in
            absurd (omega arith)
        | inr (r, k) ↦
            let (s, z, rack, es, ez, er, ok_place) = chosen r k h in
            let (at2, low) = given_number-some dto.rack_unit_start s es in
            let (high2, some_size) = given_number-some dto.rack_unit_size z ez in
            accepted id u start size rack from to
              (subst (λ x. racks x ≡ some rack)
                (some-injective (sym (given-some dto.rack_id r k) ∙ in_rack)) er)
              (subst (λ x. 1 ≤ x) (some-injective (sym at2 ∙ at)) low)
              (subst (λ x. validate_place rack x dto.site_id start size devices ≡ ok tt)
                (some-injective (sym (given-some dto.rack_id r k) ∙ in_rack))
                (subst (λ x. validate_place rack r dto.site_id start x devices ≡ ok tt)
                  (some-injective (sym high2 ∙ high))
                  (subst (λ x. validate_place rack r dto.site_id x z devices ≡ ok tt)
                    (some-injective (sym at2 ∙ at)) ok_place)))
      ]
