-- ===== src/Rack/Drop.antt =====
-- The devices that a drop leaves where they are, and the moving device among them.
use text.Mathlib.TextPositions.{eq_refl}
use management_app.Base.{
  ◌≡◌, sym, ◌∙◌, ap, ◌≢◌, inl, inr, String, true, not, List, [], ◌∷◌, ◌++◌, ◌==◌, eq_iff, arith,
  ◌&&◌, Elem, Elem-filter, Elem-of_filter, any, any-Elem, Elem-of_any, Bool-cases,
}
use management_app.Base.Int.{ℤ}
use management_app.Rack.{Device, Change, overlaps, without, without_all, collisions, moved_to}
use management_app.Rack.Units.{Compatible, IsLayout, Disjoint-of_overlaps}
use management_app.Rack.Displace.{IsLayout-snoc}
use management_app.Rack.Apply.{Describes}

-- The id names one device.
abbrev pub HasUniqueIds : List Device → Type 0
HasUniqueIds ds = (d e : Device) → Elem d ds → Elem e ds → d.id ≡ e.id → d ≡ e

-- The change is a new place for a device of the list.
abbrev pub Moves : Change → List Device → Type 0
Moves c ds =
    (s : Device) × Elem s ds
    × (c.device
        ≡ record s { rack_id = c.device.rack_id; rack_unit_start = c.device.rack_unit_start })

pub Moves-Describes :
    (ds : List Device) (c : Change) (d : Device)
    → HasUniqueIds ds
    → Moves c ds
    → Elem d ds
    → Describes c d
Moves-Describes ds c d unique (s, m, e) n same =
    let id_of : c.device.id ≡ s.id = ap (λ (x : Device). x.id) e in
    rw (unique d s n m (same ∙ id_of)) (sym e)

module _ (all : List Device) (moving : Device) (rack_id : String) (start : ℤ) where
  abbrev pub next : Device
  next = moved_to rack_id start moving

  abbrev pub remaining : List Device
  remaining = without moving all

  abbrev pub collided : List Device
  collided = collisions next remaining

  abbrev pub kept : List Device
  kept = without_all collided remaining

  pub Elem-of_remaining : (d : Device) → Elem d remaining → Elem d all × (d.id ≢ moving.id)
  Elem-of_remaining d m =
      let (n, out) = Elem-of_filter (λ x. not (x.id == moving.id)) d all m in
      (n, ground (arith, eq_iff d.id moving.id))

  pub Elem-of_kept : (d : Device) → Elem d kept → Elem d remaining
  Elem-of_kept d m =
      (Elem-of_filter (λ x. not (any (λ item. item.id == x.id) collided)) d remaining m).0

  -- A device that neither moves nor shares its id with a collided one is kept.
  pub Elem-kept :
      (d : Device)
      → Elem d all
      → d.id ≢ moving.id
      → ((item : Device) → Elem item collided → item.id ≢ d.id)
      → Elem d kept
  Elem-kept d m ne apart =
      Elem-filter (λ x. not (any (λ item. item.id == x.id) collided)) d remaining
        (Elem-filter (λ x. not (x.id == moving.id)) d all m (ground (arith, eq_iff d.id moving.id)))
        (elim (Bool-cases (any (λ item. item.id == d.id) collided)) [
          | inl hit ↦
              let (item, k, e) = Elem-of_any (λ item. item.id == d.id) collided hit in
              absurd (apart item k ((eq_iff item.id d.id).0 e))
          | inr clear ↦ rw clear
        ])

  -- What is kept overlaps nothing at the place of the moving device.
  next-Compatible : (e : Device) → Elem e kept → Compatible next e
  next-Compatible e m ne same u p q =
      let (n, out) =
        Elem-of_filter (λ x. not (any (λ item. item.id == x.id) collided)) e remaining m in
      elim (Bool-cases (overlaps e next)) [
        | inl hit ↦
            let passes : (e.rack_id == next.rack_id && overlaps e next) ≡ true =
              rw (hit, (eq_iff e.rack_id next.rack_id).1 (sym same)) in
            let here : Elem e collided =
              Elem-filter (λ x. x.rack_id == next.rack_id && overlaps x next) e remaining n
                passes in
            let seen = any-Elem (λ item. item.id == e.id) e collided here (eq_refl e.id) in
            absurd (ground (arith, seen, out))
        | inr clear ↦ Disjoint-of_overlaps e next clear u q p
      ]

  -- Without the collided devices the drop makes a layout.
  pub kept-IsLayout : IsLayout all → IsLayout (kept ++ next ∷ [])
  kept-IsLayout layout =
      IsLayout-snoc kept next
        (λ d e m n.
          layout d e (Elem-of_remaining d (Elem-of_kept d m)).0
            (Elem-of_remaining e (Elem-of_kept e n)).0)
        next-Compatible
