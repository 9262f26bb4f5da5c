-- ===== src/Snmp/Listeners/Chosen.antt =====
-- Which addresses the stored selection stands for.
use management_app.Base.{
  ◌≡◌, refl, sym, ◌↔◌, true, false, Option, none, some, List, [], map, filter, any, Elem,
  Elem-of_map, Elem-map, Elem-of_filter, Elem-filter, Elem-of_any, any-Elem, arith, inl, inr,
}
use mathlib.Core.Path.{subst}
use management_app.Text.{Text}
use management_app.Text.Sets.{same_iff, Elem-set_of}
use management_app.Snmp.Listeners.{
  Interface, Candidate, not_an_object, fields, selects, selected_addresses,
  configured_listener_addresses,
}

-- The candidate that names an interface.
abbrev pub names : Interface → Candidate
names i = fields (some i.instance_id) (some i.name) (some i.address)

selects_iff : (i : Interface) (c : Candidate) → (selects i c ≡ true) ↔ (c ≡ names i)
selects_iff i not_an_object = ground arith
selects_iff i (fields none n a) = ground arith
selects_iff i (fields (some k) none a) = ground arith
selects_iff i (fields (some k) (some n) none) = ground arith
selects_iff i (fields (some k) (some n) (some a)) =
    ground (arith, same_iff k i.instance_id, same_iff n i.name, same_iff a i.address)

-- Where the receiver does not listen on all addresses, it listens on an address exactly when the
-- address is that of an interface the host has now, and the stored selection names this interface by
-- its instance, name and address.
pub configured_iff :
    (trap_address : Option Text) (candidates : List Candidate) (current : List Interface) (a : Text)
    → Elem a (configured_listener_addresses trap_address false (some candidates) current)
      ↔ ((i : Interface) × Elem i current × Elem (names i) candidates × (a ≡ i.address))
unfolding configured_listener_addresses
configured_iff trap_address candidates current a = (to, from)
  where
    to :
        Elem a (selected_addresses (some candidates) current)
        → (i : Interface) × Elem i current × Elem (names i) candidates × (a ≡ i.address)
    to m =
        let m1 : Elem a (
            map (λ (i : Interface). i.address)
              (filter (λ (i : Interface). any (selects i) candidates) current)) =
          elim ((Elem-set_of a [] _).0 m) [ inl e ↦ e | inr nothing ↦ absurd nothing ] in
        let (i, m2, e) = Elem-of_map (λ (i : Interface). i.address) a _ m1 in
        let (m3, t) = Elem-of_filter (λ (i : Interface). any (selects i) candidates) i current m2 in
        let (c, m4, s) = Elem-of_any (selects i) candidates t in
        (i, m3, subst (λ c. Elem c candidates) ((selects_iff i c).0 s) m4, e)

    from :
        (i : Interface) × Elem i current × Elem (names i) candidates × (a ≡ i.address)
        → Elem a (selected_addresses (some candidates) current)
    from (i, m, n, e) = (Elem-set_of a [] _).1 (
        inl (
          subst
            (λ a. Elem a (
              map (λ (i : Interface). i.address)
                (filter (λ (i : Interface). any (selects i) candidates) current)))
            (sym e)
            (Elem-map (λ (i : Interface). i.address) i _
              (Elem-filter (λ (i : Interface). any (selects i) candidates) i current m
                (any-Elem (selects i) (names i) candidates n ((selects_iff i (names i)).1 refl))))))
