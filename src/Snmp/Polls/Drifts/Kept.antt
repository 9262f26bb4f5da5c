-- ===== src/Snmp/Polls/Drifts/Kept.antt =====
-- Which drifts stand in the table after a poll.
use management_app.Base.{
  ◌≡◌, refl, sym, ◌⊎◌, inl, inr, ◌↔◌, arith, Bool, false, not, Option, none, some, List, [], ◌++◌,
  filter, flat_map, Elem, Elem-append, Elem-append_left, Elem-append_right, Elem-filter,
  Elem-of_filter, Elem-flat_map, Elem-of_flat_map, Option-cases, Bool-cases,
}
use mathlib.Core.Path.{subst}
use management_app.Text.{Text}
use management_app.Snmp.Polls.Drifts.Spec.{
  IsDocumented, documented_iff, Differs, descriptions, admin_states, mac_addresses, speeds,
  difference-Differs, Differs-difference, HostsDiffer, host_iff, open_iff,
}
use management_app.Snmp.Polls.Drifts.{
  pending, Documented, Observed, Poll, Field, hostname, Value, Drift, documented_of, difference,
  drift, host_difference, made, fields, drifts_in, drifts_of, drifts_found, is_open_of,
  replace_drifts,
}

made_iff :
    (r : Drift) (v : Option (Value × Value)) (make : Value × Value → Drift)
    → Elem r (made v make) ↔ ((w : Value × Value) × (v ≡ some w) × (r ≡ make w))
made_iff r none make = ((λ m. absurd m), (λ (w, e, k). absurd (cc)))
made_iff r (some v) make =
    ((λ m. elim m [ inl e ↦ (v, refl, e) | inr nothing ↦ absurd nothing ]), (λ (w, e, k). inl (cc)))

-- A drift as the loops make it.
abbrev IsMadeOfInterface :
    Text → Text → (Text → Text) → List (Text × Documented) → Poll → Drift → Type 0
IsMadeOfInterface device snapshot lower entries poll r =
    (o : Observed) × Elem o poll.interfaces
    × (d : Documented) × (documented_of lower entries o ≡ some d)
    × (f : Field) × Elem f fields
    × (v : Value × Value) × (difference d o f ≡ some v)
    × (r ≡ drift device (some d.id) snapshot f v)

abbrev IsMadeOfHost : Text → Text → Option Text → Poll → Drift → Type 0
IsMadeOfHost device snapshot name poll r =
    (v : Value × Value) × (host_difference name poll.sys_name ≡ some v)
    × (r ≡ drift device none snapshot hostname v)

drifts_in_iff :
    (device snapshot : Text) (d : Documented) (o : Observed) (fs : List Field) (r : Drift)
    → Elem r (drifts_in device snapshot d o fs) ↔ (
        (f : Field) × Elem f fs
        × (v : Value × Value) × (difference d o f ≡ some v)
        × (r ≡ drift device (some d.id) snapshot f v))
unfolding drifts_in
drifts_in_iff device snapshot d o fs r = (
  (λ m.
      let (f, n, k) =
        Elem-of_flat_map (λ f. made (difference d o f) (drift device (some d.id) snapshot f)) r fs
          m in
      let (v, e, l) = (made_iff r (difference d o f) (drift device (some d.id) snapshot f)).0 k in
      (f, n, v, e, l)),
  (λ (f, n, v, e, l).
      Elem-flat_map (λ f. made (difference d o f) (drift device (some d.id) snapshot f)) r f fs n
        ((made_iff r (difference d o f) (drift device (some d.id) snapshot f)).1 (v, e, l))),
)

drifts_of_iff :
    (device snapshot : Text) (lower : Text → Text) (entries : List (Text × Documented))
    (o : Observed) (r : Drift)
    → Elem r (drifts_of device snapshot lower entries o) ↔ (
        (d : Documented) × (documented_of lower entries o ≡ some d)
        × Elem r (drifts_in device snapshot d o fields))
unfolding drifts_of
drifts_of_iff device snapshot lower entries o r =
    elim (Option-cases (documented_of lower entries o)) [
      | inl nothing ↦
          let e : drifts_of device snapshot lower entries o ≡ [] = ground arith in
          ((λ m. absurd (subst (Elem r) e m)), (λ (d, k, m). absurd (cc)))
      | inr (d, known) ↦
          let e : drifts_of device snapshot lower entries o ≡ drifts_in device snapshot d o fields =
            ground arith in
          (
            (λ m. (d, known, subst (Elem r) e m)),
            (λ (c, k, m). subst (Elem r) (sym e) (
                let one : c ≡ d = cc in
                subst (λ x. Elem r (drifts_in device snapshot x o fields)) one m)),
          )
    ]

drifts_found_iff :
    (device snapshot : Text) (name : Option Text) (lower : Text → Text)
    (entries : List (Text × Documented)) (poll : Poll) (r : Drift)
    → Elem r (drifts_found device snapshot name lower entries poll) ↔ (
        IsMadeOfHost device snapshot name poll r
        ⊎ IsMadeOfInterface device snapshot lower entries poll r)
unfolding drifts_found
drifts_found_iff device snapshot name lower entries poll r = (to, from)
  where
    own : List Drift
    own = made (host_difference name poll.sys_name) (drift device none snapshot hostname)

    of_interfaces : List Drift
    of_interfaces = flat_map (drifts_of device snapshot lower entries) poll.interfaces

    to :
        Elem r (own ++ of_interfaces)
        → IsMadeOfHost device snapshot name poll r
          ⊎ IsMadeOfInterface device snapshot lower entries poll r
    to m = elim (Elem-append r own of_interfaces m) [
      | inl host ↦ inl (
          (made_iff r (host_difference name poll.sys_name) (drift device none snapshot hostname)).0
            host)
      | inr port ↦
          let (o, n, k) =
            Elem-of_flat_map (drifts_of device snapshot lower entries) r poll.interfaces port in
          let (d, e, l) = (drifts_of_iff device snapshot lower entries o r).0 k in
          let (f, p, v, q, s) = (drifts_in_iff device snapshot d o fields r).0 l in
          inr (o, n, d, e, f, p, v, q, s)
    ]

    from :
        IsMadeOfHost device snapshot name poll r
          ⊎ IsMadeOfInterface device snapshot lower entries poll r
        → Elem r (own ++ of_interfaces)
    from (inl host) = Elem-append_left r own of_interfaces (
        (made_iff r (host_difference name poll.sys_name) (drift device none snapshot hostname)).1
          host)
    from (inr (o, n, d, e, f, p, v, q, s)) = Elem-append_right r own of_interfaces (
        Elem-flat_map (drifts_of device snapshot lower entries) r o poll.interfaces n (
          (drifts_of_iff device snapshot lower entries o r).1
            (d, e, (drifts_in_iff device snapshot d o fields r).1 (f, p, v, q, s))))

made_drifts_iff :
    (device snapshot : Text) (name : Option Text) (lower : Text → Text)
    (entries : List (Text × Documented)) (poll : Poll) (table : List Drift) (r : Drift)
    → Elem r (replace_drifts device snapshot name lower entries poll table) ↔ (
        (Elem r table × (is_open_of device r ≡ false))
        ⊎ (IsMadeOfHost device snapshot name poll r
            ⊎ IsMadeOfInterface device snapshot lower entries poll r))
unfolding replace_drifts
made_drifts_iff device snapshot name lower entries poll table r = (to, from)
  where
    stays : Drift → Bool
    stays d = not (is_open_of device d)

    found : List Drift
    found = drifts_found device snapshot name lower entries poll

    to :
        Elem r (filter stays table ++ found)
        → (Elem r table × (is_open_of device r ≡ false))
          ⊎ (IsMadeOfHost device snapshot name poll r
              ⊎ IsMadeOfInterface device snapshot lower entries poll r)
    to m = elim (Elem-append r (filter stays table) found m) [
      | inl old ↦ let (n, k) = Elem-of_filter stays r table old in inl (n, ground arith)
      | inr new ↦ inr ((drifts_found_iff device snapshot name lower entries poll r).0 new)
    ]

    from :
        (Elem r table × (is_open_of device r ≡ false))
          ⊎ (IsMadeOfHost device snapshot name poll r
              ⊎ IsMadeOfInterface device snapshot lower entries poll r)
        → Elem r (filter stays table ++ found)
    from (inl (n, closed)) =
        Elem-append_left r (filter stays table) found (Elem-filter stays r table n (ground arith))
    from (inr new) =
        Elem-append_right r (filter stays table) found
          ((drifts_found_iff device snapshot name lower entries poll r).1 new)

Differs-field :
    (d : Documented) (o : Observed) (f : Field) (v w : Value) → Differs d o f v w → Elem f fields
Differs-field d o _ _ _ (descriptions x y p q n) = inl refl
Differs-field d o _ _ _ (admin_states x y p q n) = inr (inl refl)
Differs-field d o _ _ _ (mac_addresses x y p q n) = inr (inr (inl refl))
Differs-field d o _ _ _ (speeds x y p q n) = inr (inr (inr (inl refl)))

-- An open drift of the device, found with the snapshot.
abbrev pub open_drift : Text → Option Text → Text → Field → Value → Value → Drift
open_drift device interface snapshot field documented observed = record {
  device = device;
  interface_id = interface;
  snapshot = snapshot;
  field = field;
  documented_value = documented;
  observed_value = observed;
  status = pending;
}

abbrev pub IsHostDrift : Text → Text → Option Text → Poll → Drift → Type 0
IsHostDrift device snapshot name poll r =
    (v : Value) × (w : Value) × HostsDiffer name poll.sys_name v w
    × (r ≡ open_drift device none snapshot hostname v w)

abbrev pub IsInterfaceDrift :
    Text → Text → (Text → Text) → List (Text × Documented) → Poll → Drift → Type 0
IsInterfaceDrift device snapshot lower entries poll r =
    (o : Observed) × Elem o poll.interfaces
    × (d : Documented) × IsDocumented lower entries o d
    × (f : Field) × (v : Value) × (w : Value) × Differs d o f v w
    × (r ≡ open_drift device (some d.id) snapshot f v w)

-- After a poll, the table has the drifts that were there, less the open ones of the device, and an open
-- one for each difference that the poll shows: of the host names, where both are there and not empty;
-- and, for an interface that is documented under its name or else under its description, of the
-- description, the administrative state, the MAC address and the speed, where both sides give it.
pub replace_drifts_iff :
    (device snapshot : Text) (name : Option Text) (lower : Text → Text)
    (entries : List (Text × Documented)) (poll : Poll) (table : List Drift) (r : Drift)
    → Elem r (replace_drifts device snapshot name lower entries poll table) ↔ (
        (Elem r table × ¬ ((r.device ≡ device) × (r.status ≡ pending)))
        ⊎ (IsHostDrift device snapshot name poll r
            ⊎ IsInterfaceDrift device snapshot lower entries poll r))
replace_drifts_iff device snapshot name lower entries poll table r = (
  (λ m. elim ((made_drifts_iff device snapshot name lower entries poll table r).0 m) [
    | inl (n, closed) ↦ inl (n, λ both. let open_too = (open_iff device r).1 both in cc)
    | inr (inl ((v, w), h, e)) ↦ inr (inl (v, w, (host_iff name poll.sys_name v w).0 h, e))
    | inr (inr (o, n, d, k, f, _, (v, w), h, e)) ↦ inr (
        inr (
          o,
          n,
          d,
          (documented_iff lower entries o d).0 k,
          f,
          v,
          w,
          difference-Differs d o f v w h,
          e,
        ))
  ]),
  (λ h. (made_drifts_iff device snapshot name lower entries poll table r).1 (elim h [
    | inl (n, closed) ↦ inl (
      n,
      elim (Bool-cases (is_open_of device r)) [
        | inl k ↦ absurd (closed ((open_iff device r).0 k))
        | inr k ↦ k
      ],
    )
    | inr (inl (v, w, d, e)) ↦ inr (inl ((v, w), (host_iff name poll.sys_name v w).1 d, e))
    | inr (inr (o, n, d, k, f, v, w, h, e)) ↦ inr (
        inr (
          o,
          n,
          d,
          (documented_iff lower entries o d).1 k,
          f,
          Differs-field d o f v w h,
          (v, w),
          Differs-difference d o f v w h,
          e,
        ))
  ])),
)
