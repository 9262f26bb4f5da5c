-- ===== src/Rack/Layout.antt =====
-- A drop keeps the layout of the racks: after the writes of `placeDevice` no two devices of a
-- rack share a unit.
use mathlib.Core.List.{append-nil}
use management_app.Base.{
  ◌≡◌, refl, sym, ◌∙◌, ◌≢◌, inl, inr, String, List, [], ◌∷◌, ◌++◌, map, flat_map, Elem, some, ok,
  true, not, ◌==◌, arith, eq_iff, Elem-filter, Elem-of_map, Elem-map, Elem-append, Elem-append_left,
  Elem-append_right, Elem-of_find, Elem-of_filter,
}
use management_app.Base.Int.{ℤ}
use management_app.Base.Number.{Number}
use management_app.Base.Sort.{sort, Elem-sort, Elem-of_sort}
use management_app.Rack.{
  Device, Rack, Reason, Change, Plan, change, moved, displaced, swapped, candidate, exchange,
  by_start, plan_rack_placement, apply_changes, fits, without, displace,
}
use management_app.Rack.Units.{IsLayout, Compatible, fits-Compatible}
use management_app.Rack.Apply.{Elem-apply_changes}
use management_app.Rack.Displace.{IsLayout-snoc, displace-IsLayout, Elem-of_displace, Elem-displace}
use management_app.Rack.Shape.{Shape, free, pushed, exchanged, plan-Planned}
use management_app.Rack.Drop.{
  HasUniqueIds, Moves, Moves-Describes, next, remaining, collided, kept, Elem-of_remaining,
  Elem-of_kept, Elem-kept, kept-IsLayout,
}

-- Where the devices stand in the end.
pub record Settles (ds : List Device) (cs : List Change) : Type 0 where
  pub places : List Device
  pub layout : IsLayout places
  pub moves : (c : Change) → Elem c cs → Moves c ds
  pub puts : (c : Change) → Elem c cs → Elem c.device places
  pub stands :
      (d : Device) → Elem d ds → ((c : Change) → Elem c cs → d.id ≢ c.device.id) → Elem d places

Settles-IsLayout :
    (ds : List Device) (cs : List Change)
    → HasUniqueIds ds
    → Settles ds cs
    → IsLayout (apply_changes cs ds)
Settles-IsLayout ds cs unique s d e md me = s.layout d e (arrive d md) (arrive e me)
  where
    arrive : (x : Device) → Elem x (apply_changes cs ds) → Elem x s.places
    arrive =
        Elem-apply_changes cs ds s.places (λ c x m n. Moves-Describes ds c x unique (s.moves c m) n)
          s.puts s.stands

module _ (all : List Device) (target_rack : Rack) (moving : Device) (rack_id : String) (start : ℤ)
    (moving_in : Elem moving all) (layout : IsLayout all) where
  abbrev there : Device
  there = next all moving rack_id start

  abbrev stay : List Device
  stay = kept all moving rack_id start

  abbrev hit : List Device
  hit = collided all moving rack_id start

  abbrev target : Change
  target = change moved target_rack there

  base : IsLayout (stay ++ there ∷ [])
  base = kept-IsLayout all moving rack_id start layout

  hit-in : (d : Device) → Elem d hit → Elem d all
  hit-in d m =
      let before = remaining all moving rack_id start in
      (Elem-of_remaining all moving rack_id start d (Elem-of_filter _ d before m).0).0

  -- The device is one of the list at another place.
  abbrev Relocates : Device → Type 0
  Relocates x =
      (s : Device) × Elem s all
      × (x ≡ record s { rack_id = x.rack_id; rack_unit_start = x.rack_unit_start })

  -- The moving device and some others, among them all that were in the way.
  gather :
      (reason : Reason) (rack : Rack) (others : List Device)
      → IsLayout ((stay ++ there ∷ []) ++ others)
      → ((x : Device) → Elem x others → Relocates x)
      → ((d : Device) → Elem d hit → (x : Device) × Elem x others × (x.id ≡ d.id))
      → Settles all (target ∷ map (change reason rack) others)
  gather reason rack others final relocates cover = record {
    places = places;
    layout = final;
    moves = moves;
    puts = puts;
    stands = stands;
  }
    where
      places : List Device
      places = (stay ++ there ∷ []) ++ others

      cs : List Change
      cs = target ∷ map (change reason rack) others

      moves : (c : Change) → Elem c cs → Moves c all
      moves c (inl e) = rw e (moving, moving_in, refl)
      moves c (inr m) =
          let (x, n, e) = Elem-of_map (change reason rack) c others m in rw e (relocates x n)

      puts : (c : Change) → Elem c cs → Elem c.device places
      puts c (inl e) = rw e (
          Elem-append_left there (stay ++ there ∷ []) others
            (Elem-append_right there stay (there ∷ []) (inl refl)))
      puts c (inr m) =
          let (x, n, e) = Elem-of_map (change reason rack) c others m in
          rw e (Elem-append_right x (stay ++ there ∷ []) others n)

      stands :
          (d : Device)
          → Elem d all
          → ((c : Change) → Elem c cs → d.id ≢ c.device.id)
          → Elem d places
      stands d m out = Elem-append_left d (stay ++ there ∷ []) others (
          Elem-append_left d stay (there ∷ []) (
            Elem-kept all moving rack_id start d m (out target (inl refl)) (λ item k same.
              let (x, n, e) = cover item k in
              out (change reason rack x) (inr (Elem-map (change reason rack) x others n))
                (sym (e ∙ same)))))

  pushed-Settles :
      (cs : List Device)
      → displace target_rack (stay ++ there ∷ []) (sort by_start hit) ≡ some cs
      → Settles all (target ∷ map (change displaced target_rack) cs)
  pushed-Settles cs h =
      gather displaced target_rack cs
        (displace-IsLayout target_rack (stay ++ there ∷ []) (sort by_start hit) cs base h)
        (λ x m.
          let (d, n, e, _, _) = Elem-of_displace target_rack _ (sort by_start hit) cs x h m in
          rw e (d, hit-in d (Elem-of_sort by_start d hit n), refl))
        (λ d m. (
          candidate d,
          Elem-displace target_rack _ (sort by_start hit) cs d h (Elem-sort by_start d hit m),
          refl,
        ))

  -- The exchanged device is compatible with all that stays: it was tested against all of it.
  exchange-Compatible :
      (d : Device) (source : Rack)
      → fits (exchange moving d) source (without moving stay ++ there ∷ []) ≡ true
      → (e : Device) → Elem e (stay ++ there ∷ [])
      → Compatible (exchange moving d) e
  exchange-Compatible d source fit e m =
      fits-Compatible (exchange moving d) source (without moving stay ++ there ∷ []) fit e
        (elim (Elem-append e stay (there ∷ []) m) [
          | inl a ↦
              let (_, ne) =
                Elem-of_remaining all moving rack_id start e
                  (Elem-of_kept all moving rack_id start e a) in
              Elem-append_left e (without moving stay) (there ∷ []) (
                Elem-filter (λ x. not (x.id == moving.id)) e stay a
                  (ground (arith, eq_iff e.id moving.id)))
          | inr b ↦ Elem-append_right e (without moving stay) (there ∷ []) b
        ])

  exchanged-Settles :
      (d : Device) (source : Rack)
      → sort by_start hit ≡ d ∷ []
      → fits (exchange moving d) source (without moving stay ++ there ∷ []) ≡ true
      → Settles all (target ∷ change swapped source (exchange moving d) ∷ [])
  exchanged-Settles d source one fit =
      gather swapped source (exchange moving d ∷ [])
        (IsLayout-snoc (stay ++ there ∷ []) (exchange moving d) base
          (exchange-Compatible d source fit))
        relocates cover
    where
      d_hit : Elem d hit
      d_hit = Elem-of_sort by_start d hit (rw one (inl refl))

      relocates : (x : Device) → Elem x (exchange moving d ∷ []) → Relocates x
      relocates x (inl e) = rw e (d, hit-in d d_hit, refl)
      relocates x (inr none_left) = absurd none_left

      is_d : (item : Device) → Elem item (d ∷ []) → d.id ≡ item.id
      is_d item (inl e) = rw e
      is_d item (inr none_left) = absurd none_left

      cover :
          (item : Device)
          → Elem item hit
          → (x : Device) × Elem x (exchange moving d ∷ []) × (x.id ≡ item.id)
      cover item m =
          let in_sort : Elem item (d ∷ []) = rw one at (Elem-sort by_start item hit m) in
          (exchange moving d, inl refl, is_d item in_sort)

  Shape-Settles :
      (racks : List Rack) (p : Plan)
      → Shape racks target_rack moving there (remaining all moving rack_id start) hit p
      → Settles all p.changes
  Shape-Settles racks p (free none_hit e) = rw e (
      gather moved target_rack [] (rw append-nil base) (λ x m. absurd m)
        (λ d m. let none_left : Elem d [] = rw none_hit at m in absurd none_left))
  Shape-Settles racks p (pushed cs h e) = rw e (pushed-Settles cs h)
  Shape-Settles racks p (exchanged d source one _ fit e) = rw e (exchanged-Settles d source one fit)

abbrev pub all_devices : List Rack → List Device
all_devices = flat_map (λ r. r.devices)

-- If ids are unique and no two devices of a rack share a unit, then carrying out a plan keeps it so.
pub plan-IsLayout :
    (racks : List Rack) (device_id target_rack_id : String) (target_unit : Number) (p : Plan)
    → HasUniqueIds (all_devices racks)
    → IsLayout (all_devices racks)
    → plan_rack_placement racks device_id target_rack_id target_unit ≡ ok p
    → IsLayout (apply_changes p.changes (all_devices racks))
plan-IsLayout racks device_id target_rack_id target_unit p unique layout h =
    let m = plan-Planned racks device_id target_rack_id target_unit p h in
    let moving_in = (Elem-of_find _ m.moving (all_devices racks) m.device_found).0 in
    Settles-IsLayout (all_devices racks) p.changes unique (
      Shape-Settles (all_devices racks) m.target_rack m.moving target_rack_id _ moving_in layout
        racks p m.shape)
