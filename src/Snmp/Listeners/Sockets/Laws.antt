-- ===== src/Snmp/Listeners/Sockets/Laws.antt =====
-- What a refresh leaves open.
use management_app.Base.{
  ◌≡◌, refl, sym, ◌⊎◌, inl, inr, Bool, true, false, List, [], all, is_empty, Bool-cases,
  if◌then◌else◌,
}
use management_app.Text.{Text}
use management_app.Text.Sets.{same, same_iff}
use management_app.Snmp.Listeners.Sockets.{
  Receiver, InterfaceRow, World, joined, bind, addresses_of, listen, perform_refresh,
}

-- The receiver knows its sockets.
abbrev pub IsConsistent : Receiver → Type 0
IsConsistent r = r.sockets ≡ r.bound_addresses

-- Ready on the addresses that are asked for.
abbrev Listens : List Text → Bool × Receiver → Type 0
Listens addresses (returns, r) =
    (returns ≡ true)
    × (r.ready ≡ true)
    × (is_empty addresses ≡ false)
    × (joined r.sockets ≡ joined addresses)

-- Not ready, and nothing is open.
abbrev Closed : Receiver → Type 0
Closed r = (r.ready ≡ false) × (r.sockets ≡ [])

listen_cases :
    (w : World) (addresses : List Text) (r : Receiver)
    → IsConsistent r
    → IsConsistent (listen w addresses r).1
      × (Listens addresses (listen w addresses r) ⊎ Closed (listen w addresses r).1)
unfolding listen bind
listen_cases w addresses r h = elim (Bool-cases (is_empty addresses)) [
  | inl nothing ↦ rw nothing (refl, inr (refl, refl))
  | inr some_address ↦
      rw some_address (elim (Bool-cases (same (joined addresses) (joined r.bound_addresses))) [
        | inl unchanged ↦ rw unchanged (h, inl (refl, refl, refl, kept unchanged))
        | inr changed ↦ rw changed (elim (Bool-cases (all w.opens addresses)) [
          | inl opened ↦ rw opened (refl, inl (refl, refl, refl, refl))
          | inr failed ↦ rw failed (refl, inr (refl, refl))
        ])
      ])
]
  where
    kept :
        same (joined addresses) (joined r.bound_addresses) ≡ true
        → joined r.sockets ≡ joined addresses
    kept e =
        let known : joined addresses ≡ joined r.bound_addresses =
          (same_iff (joined addresses) (joined r.bound_addresses)).0 e in
        rw h (sym known)

-- A refresh that starts with a receiver that knows its sockets ends with one, and either it returns
-- and the receiver is ready and listens on the addresses that are asked for (compared as the code
-- compares them, joined), of which there is one at least, or the receiver is not ready and all its
-- sockets are closed.
pub refresh_cases :
    (w : World) (r : Receiver) (rows : List InterfaceRow)
    → r.sockets ≡ r.bound_addresses
    → let (returns, next) = (perform_refresh w r rows).0 in
      (next.sockets ≡ next.bound_addresses)
      × (((returns ≡ true)
            × (next.ready ≡ true)
            × (is_empty (addresses_of w) ≡ false)
            × (joined next.sockets ≡ joined (addresses_of w)))
          ⊎ ((next.ready ≡ false) × (next.sockets ≡ [])))
unfolding perform_refresh
refresh_cases w r rows h =
    listen_cases w (addresses_of w)
      (if w.container_ingress then record r { inventory_cleaned = true } else r)
      (keeps w.container_ingress)
  where
    keeps : (b : Bool) → IsConsistent (if b then record r { inventory_cleaned = true } else r)
    keeps true = h
    keeps false = h
