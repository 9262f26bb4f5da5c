-- ===== src/Discovery/Policy/Ports.antt =====
-- The ports that `normalizeDiscoveryPorts` gives.
use management_app.Base.{
  ℕ, ◌≤◌, ◌≡◌, ◌↔◌, arith, some, List, [], ◌∷◌, Elem, leb, length, ok, guard_bind,
}
use management_app.Base.Int.{pos, negsuc}
use management_app.Base.Number.{Number, integer, other}
use management_app.Collections.Ascending.{
  ascending_set, IsAscending, ascending_set-IsAscending, Elem-ascending_set,
}
use management_app.Discovery.Policy.{ports_of, max_discovery_ports, normalize_discovery_ports}

-- A port number that is in range.
abbrev pub IsPort : ℕ → Type 0
IsPort p = (1 ≤ p) × (p ≤ 65535)

Elem-ports_of :
    (p : ℕ) (xs : List Number) → Elem p (ports_of xs) ↔ (Elem (integer (pos p)) xs × IsPort p)
Elem-ports_of p [] = ((λ m. absurd m), (λ m. absurd m.0))
Elem-ports_of p (integer (pos n) ∷ xs) = grind (arith, Elem-ports_of p xs)
Elem-ports_of p (integer (negsuc n) ∷ xs) = grind (arith, Elem-ports_of p xs)
Elem-ports_of p (other ∷ xs) = grind (arith, Elem-ports_of p xs)

ports_step :
    (items : List Number) (ps : List ℕ)
    → normalize_discovery_ports (some items) ≡ ok ps
    → (ascending_set (ports_of items) ≡ ps) × (length ps ≤ max_discovery_ports)
unfolding normalize_discovery_ports
ports_step items ps h =
    let ports = ascending_set (ports_of items) in
    let (few, e) = guard_bind (leb (length ports) max_discovery_ports) _ _ h in
    let same : ports ≡ ps = cc in (same, rw (← same) (ground arith))

-- The ports of a run are those of the setting that are in range, and no others.
pub normalize_discovery_ports_iff :
    (items : List Number) (ps : List ℕ) (p : ℕ)
    → normalize_discovery_ports (some items) ≡ ok ps
    → Elem p ps ↔ (Elem (integer (pos p)) items × IsPort p)
normalize_discovery_ports_iff items ps p h =
    let (same, _) = ports_step items ps h in
    rw (← same) (grind (arith, Elem-ascending_set p (ports_of items), Elem-ports_of p items))

-- They stand in strictly ascending order, hence each one once, and are 64 at most.
pub normalize_discovery_ports-IsAscending :
    (items : List Number) (ps : List ℕ)
    → normalize_discovery_ports (some items) ≡ ok ps
    → IsAscending ps × (length ps ≤ max_discovery_ports)
normalize_discovery_ports-IsAscending items ps h =
    let (same, few) = ports_step items ps h in
    (rw same at (ascending_set-IsAscending (ports_of items)), few)
