-- ===== src/Rack/Apply.antt =====
-- Where each device stands after the writes of `placeDevice`.
use management_app.Base.{
  ◌≡◌, refl, ◌∙◌, ◌≢◌, ◌⊎◌, inl, inr, false, List, [], ◌∷◌, map, ◌==◌, eq_iff, arith, Elem,
  Elem-of_map, Bool-cases,
}
use management_app.Rack.{Device, Change, apply_change, apply_changes}

-- The device at the place that the change gives.
abbrev placed : Device → Change → Device
placed d c = record d { rack_id = c.device.rack_id; rack_unit_start = c.device.rack_unit_start }

-- The change describes the device, if it names it.
abbrev pub Describes : Change → Device → Type 0
Describes c d = d.id ≡ c.device.id → placed d c ≡ c.device

-- The changes one after another, for one device.
abbrev apply_each : List Change → Device → Device
apply_each [] d = d
apply_each (c ∷ cs) d = apply_each cs (apply_change c d)

Elem-of_apply_changes :
    (cs : List Change) (ds : List Device) (x : Device)
    → Elem x (apply_changes cs ds)
    → (d : Device) × Elem d ds × (x ≡ apply_each cs d)
unfolding apply_changes
Elem-of_apply_changes [] ds x m = (x, m, refl)
Elem-of_apply_changes (c ∷ cs) ds x m =
    let (y, n, e) = Elem-of_apply_changes cs (map (apply_change c) ds) x m in
    let (d, k, f) = Elem-of_map (apply_change c) y ds n in (d, k, rw f at e)

abbrev Outcome : List Change → Device → Device → Type 0
Outcome cs d x =
    ((x ≡ d) × ((c : Change) → Elem c cs → d.id ≢ c.device.id))
    ⊎ ((c : Change) × Elem c cs × (x ≡ c.device))

-- A device that no change names stays; any other ends where a change puts it.
apply_each-Outcome :
    (cs : List Change) (d : Device)
    → ((c : Change) → Elem c cs → Describes c d)
    → Outcome cs d (apply_each cs d)
apply_each-Outcome [] d h = inl (refl, λ c m. absurd m)
apply_each-Outcome (c ∷ cs) d h = elim (Bool-cases (d.id == c.device.id)) [
  | inl same ↦
      let e : placed d c ≡ c.device = h c (inl refl) ((eq_iff d.id c.device.id).0 same) in
      rw same (hit e (apply_each-Outcome cs (placed d c) (λ b m. h b (inr m))))
  | inr other ↦ rw other (miss other (apply_each-Outcome cs d (λ b m. h b (inr m))))
]
  where
    hit :
        placed d c ≡ c.device
        → Outcome cs (placed d c) (apply_each cs (placed d c))
        → Outcome (c ∷ cs) d (apply_each cs (placed d c))
    hit e (inl (stays, _)) = inr (c, inl refl, stays ∙ e)
    hit e (inr (b, m, goes)) = inr (b, inr m, goes)

    ne : (d.id == c.device.id) ≡ false → d.id ≢ c.device.id
    ne other = ground (arith, eq_iff d.id c.device.id)

    miss :
        (d.id == c.device.id) ≡ false
        → Outcome cs d (apply_each cs d)
        → Outcome (c ∷ cs) d (apply_each cs d)
    miss other (inl (stays, out)) = inl (stays, names)
      where
        names : (b : Change) → Elem b (c ∷ cs) → d.id ≢ b.device.id
        names b (inl e) = rw e (ne other)
        names b (inr m) = out b m
    miss other (inr (b, m, goes)) = inr (b, inr m, goes)

-- The devices stand in `places` after the changes, if each change describes the devices it names
-- and puts its device in `places`, where the devices that no change names stand already.
pub Elem-apply_changes :
    (cs : List Change) (ds places : List Device)
    → ((c : Change) (d : Device) → Elem c cs → Elem d ds → Describes c d)
    → ((c : Change) → Elem c cs → Elem c.device places)
    → ((d : Device) → Elem d ds → ((c : Change) → Elem c cs → d.id ≢ c.device.id) → Elem d places)
    → (x : Device) → Elem x (apply_changes cs ds)
    → Elem x places
Elem-apply_changes cs ds places describes puts stands x m =
    let (d, n, e) = Elem-of_apply_changes cs ds x m in
    rw e (place n (apply_each-Outcome cs d (λ c k. describes c d k n)))
  where
    place :
        {d : Device} → Elem d ds → Outcome cs d (apply_each cs d) → Elem (apply_each cs d) places
    place {d} n (inl (stays, out)) = rw stays (stands d n out)
    place n (inr (c, k, goes)) = rw goes (puts c k)
