-- ===== src/Snmp/Service/Onboard/Placed.antt =====
-- The racks after `onboardDevice` of snmp.service.ts.
use management_app.Base.{
  ℕ, ◌≤◌, ◌≡◌, sym, ◌∙◌, ap, inl, inr, not, Option, some, List, [], ◌∷◌, ◌++◌, Elem, any, ok,
  bind-eq-ok, seq-eq-ok, guard_bind,
}
use mathlib.Core.Path.{subst}
use management_app.Text.{Text}
use management_app.Snmp.Service.Accept.{Device, is_managed_at}
use management_app.Snmp.Service.Accept.Outcome.{ok-injective}
use management_app.Snmp.Service.Exclusive.Rows.{Elem-snoc}
use management_app.Snmp.Service.Onboard.{
  Rack, OnboardDto, Store, Call, validate_onboarding_rack, new_device, credentials_of,
  onboard_checks, onboard_transaction, onboard_device,
}
use management_app.Snmp.Service.Onboard.Units.{Covers, at_start, Accepted, rack-Accepted}

-- Devices stand on units of racks of their sites, two of them on no unit.
pub record IsPlaced (racks : Text → Option Rack) (devices : List Device) : Type 0 where
  pub inside :
      (id : Text) (u : ℕ) (d : Device)
      → Elem d devices
      → Covers id u d
      → (rack : Rack) × (racks id ≡ some rack)
        × (rack.site_id ≡ d.site_id)
        × (1 ≤ u)
        × (u ≤ rack.units)
  pub alone :
      (id : Text) (u : ℕ) (d e : Device)
      → Elem d devices
      → Elem e devices
      → Covers id u d
      → Covers id u e
      → d ≡ e

-- The device of a call that is answered.
abbrev IsAdded : Call → OnboardDto → Store → Store → Type 0
IsAdded call dto s t =
    (validate_onboarding_rack call.racks dto s.devices ≡ ok tt)
    × (s.devices ++ new_device call dto ∷ [] ≡ t.devices)

onboard_device-IsAdded :
    (call : Call) (dto : OnboardDto) (s t : Store)
    → onboard_device call dto s ≡ ok t
    → IsAdded call dto s t
unfolding onboard_device onboard_transaction
onboard_device-IsAdded call dto s t h =
    let (secrets, _, h1) = bind-eq-ok (onboard_checks call dto s) _ h in
    let (place, h2) = seq-eq-ok (validate_onboarding_rack call.racks dto s.devices) _ h1 in
    let (_, h3) =
      guard_bind (not (any (is_managed_at dto.site_id dto.management_ip) s.devices)) _ _ h2 in
    let (rows, _, h4) = bind-eq-ok (credentials_of call dto secrets s.vault) _ h3 in
    (place, ap (λ (x : Store). x.devices) (ok-injective h4))

-- Where the devices of the racks stand on units of racks of their sites, and two of them on no unit,
-- they do so after a device was onboarded.
pub onboard_device-IsPlaced :
    (call : Call) (dto : OnboardDto) (s t : Store)
    → IsPlaced call.racks s.devices
    → onboard_device call dto s ≡ ok t
    → IsPlaced call.racks t.devices
onboard_device-IsPlaced call dto s t p h =
    let (place, e) = onboard_device-IsAdded call dto s t h in
    subst (IsPlaced call.racks) e (record {
      inside = λ id u d m c. elim (Elem-snoc d new s.devices m) [
        | inl k ↦ subst (Inside id u) (sym k) (
            let a = known place id u (subst (Covers id u) k c) in
            (a.rack, a.is_rack, a.at_site, a.low, a.high))
        | inr n ↦ p.inside id u d n c
      ];
      alone = λ id u d f m n c g. elim (Elem-snoc d new s.devices m) [
        | inl k ↦ elim (Elem-snoc f new s.devices n) [
          | inl j ↦ k ∙ sym j
          | inr o ↦ absurd (apart place id u f o (subst (Covers id u) k c) g)
        ]
        | inr o ↦ elim (Elem-snoc f new s.devices n) [
          | inl j ↦ absurd (apart place id u d o (subst (Covers id u) j g) c)
          | inr q ↦ p.alone id u d f o q c g
        ]
      ];
    })
  where
    new : Device
    new = new_device call dto

    Inside : Text → ℕ → Device → Type 0
    Inside id u d =
        (rack : Rack) × (call.racks id ≡ some rack)
        × (rack.site_id ≡ d.site_id)
        × (1 ≤ u)
        × (u ≤ rack.units)

    known :
        validate_onboarding_rack call.racks dto s.devices ≡ ok tt
        → (id : Text) (u : ℕ) → Covers id u new
        → Accepted call.racks dto s.devices id u
    known place id u c =
        rack-Accepted call.racks dto s.devices place id u c.start c.size c.in_rack c.at c.high
          c.from c.to

    apart :
        validate_onboarding_rack call.racks dto s.devices ≡ ok tt
        → (id : Text) (u : ℕ) (d : Device) → Elem d s.devices
        → Covers id u new
        → ¬ Covers id u d
    apart place id u d m c g =
        let a = known place id u c in
        let (rack, _, _, low, _) = p.inside id g.start d m (at_start id u d g) in a.free d m g low
