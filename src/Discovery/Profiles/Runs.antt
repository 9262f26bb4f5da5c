-- ===== src/Discovery/Profiles/Runs.antt =====
-- The runs that a profile leads to.
use management_app.Base.{
  ℕ, ◌≤◌, ◌≡◌, refl, ◌⊎◌, inl, inr, ◌↔◌, arith, String, true, false, not, ◌&&◌, Option, none, some,
  List, [], filter, find, is_empty, ◌==◌, eq_iff, length, Elem, Elem-of_find, Elem-filter,
  Elem-of_filter, if◌then◌else◌, ok, bind-eq-ok, guard_bind, or_throw_bind, Bool-cases,
}
use mathlib.Core.Path.{subst}
use management_app.Base.Int.{pos}
use management_app.Base.Number.{Number, integer}
use management_app.Collections.Texts.{includes, includes_iff, unique, Elem-unique}
use management_app.Collections.Ascending.{IsAscending}
use management_app.Discovery.Policy.{normalize_discovery_ports, max_discovery_ports}
use management_app.Discovery.Policy.Ports.{
  IsPort, normalize_discovery_ports_iff, normalize_discovery_ports-IsAscending,
}
use management_app.Discovery.Profiles.{
  Choice, Profile, Run, is_method, run_of, icmp_only, web, network, discovery_profiles,
  resolve_discovery_profile,
}

-- The values that a profile takes, by its id.
abbrev pub Chooses : String → Choice → Choice → Choice → Type 0
Chooses id custom defaults c =
    ((id ≡ "custom") × (c ≡ custom))
    ⊎ (((id ≡ "defaults") × (c ≡ defaults))
        ⊎ (((id ≡ "icmp-only") × (c ≡ icmp_only))
            ⊎ (((id ≡ "web") × (c ≡ web)) ⊎ ((id ≡ "network") × (c ≡ network)))))

-- A port that a stored value asks for.
abbrev pub Asks : Option (List Number) → ℕ → Type 0
Asks none p = ⊥
Asks (some items) p = Elem (integer (pos p)) items × IsPort p

ports_iff :
    (items : Option (List Number)) (ps : List ℕ)
    → normalize_discovery_ports items ≡ ok ps
    → ((p : ℕ) → Elem p ps ↔ Asks items p) × IsAscending ps × (length ps ≤ max_discovery_ports)
unfolding normalize_discovery_ports
ports_iff none ps h = nothing (cc)
  where
    nothing :
        [] ≡ ps
        → ((p : ℕ) → Elem p ps ↔ Asks none p) × IsAscending ps × (length ps ≤ max_discovery_ports)
    nothing e =
        subst
          (λ qs.
            ((p : ℕ) → Elem p qs ↔ Asks none p)
            × IsAscending qs
            × (length qs ≤ max_discovery_ports))
          e ((λ p. ((λ m. m), (λ m. m))), tt, omega arith)
ports_iff (some items) ps h =
    let (ascending, few) = normalize_discovery_ports-IsAscending items ps h in
    ((λ p. normalize_discovery_ports_iff items ps p h), ascending, few)

is_method_iff : (m : String) → (is_method m ≡ true) ↔ ((m ≡ "ICMP") ⊎ (m ≡ "TCP"))
is_method_iff m = ground (arith, eq_iff m "ICMP", eq_iff m "TCP")

methods_iff :
    (m : String) (ms : List String)
    → Elem m (filter is_method (unique ms)) ↔ (Elem m ms × ((m ≡ "ICMP") ⊎ (m ≡ "TCP")))
methods_iff m ms = (
  (λ e.
      let (n, t) = Elem-of_filter is_method m (unique ms) e in
      ((Elem-unique m ms).0 n, (is_method_iff m).0 t)),
  (λ (n, t). Elem-filter is_method m (unique ms) ((Elem-unique m ms).1 n) ((is_method_iff m).1 t)),
)

-- What a run has from the values `c`.
abbrev pub IsRunOf : Choice → Run → Type 0
IsRunOf c run =
    ((m : String) → Elem m run.methods ↔ (Elem m c.methods × ((m ≡ "ICMP") ⊎ (m ≡ "TCP"))))
    × ((p : ℕ) → Elem p run.tcp_ports ↔ Asks c.tcp_ports p)
    × (is_empty run.methods ≡ false)
    × (Elem "TCP" run.methods → is_empty run.tcp_ports ≡ false)
    × IsAscending run.tcp_ports
    × (length run.tcp_ports ≤ max_discovery_ports)
    × (run.reverse_dns ≡ c.reverse_dns)

run_of-IsRunOf : (c : Choice) (run : Run) → run_of c ≡ ok run → IsRunOf c run
unfolding run_of
run_of-IsRunOf c run h =
    let (ports, normal, k) = bind-eq-ok (normalize_discovery_ports c.tcp_ports) _ h in
    let ms = filter is_method (unique c.methods) in
    let (some_method, l) = guard_bind (not (is_empty ms)) _ _ k in
    let (some_port, e) = guard_bind (not (includes "TCP" ms && is_empty ports)) _ _ l in
    let (asked, ascending, few) = ports_iff c.tcp_ports ports normal in
    let made : record { methods = ms; tcp_ports = ports; reverse_dns = c.reverse_dns } ≡ run = cc in
    subst (IsRunOf c) made (
      (λ m. methods_iff m c.methods),
      asked,
      ground arith,
      (λ tcp. ground (arith, (includes_iff "TCP" ms).1 tcp)),
      ascending,
      few,
      refl,
    )

find-Chooses :
    (id : String) (custom defaults : Choice) (profile : Profile)
    → find (λ (p : Profile). p.id == id) (discovery_profiles defaults) ≡ some profile
    → Chooses id custom defaults (if id == "custom" then custom else profile.choice)
find-Chooses id custom defaults profile h =
    let (m, t) =
      Elem-of_find (λ (p : Profile). p.id == id) profile (discovery_profiles defaults) h in
    let same_id = (eq_iff profile.id id).0 t in
    elim (Bool-cases (id == "custom")) [
      | inl own ↦ inl ((eq_iff id "custom").0 own, ground arith)
      | inr other ↦ inr (ground (arith, eq_iff id "custom"))
    ]

-- A profile that is resolved leads to a run that has the methods of its values that are ICMP or TCP,
-- one at least, and the valid ports of them, in order, at most 64, and one at least if TCP is a method.
-- The values are the caller's for the custom profile, the organisation's for the default one, and fixed
-- ones for the three others.
pub resolve-IsRunOf :
    (id : String) (custom defaults : Choice) (run : Run)
    → resolve_discovery_profile id custom defaults ≡ ok run
    → (c : Choice) × Chooses id custom defaults c × IsRunOf c run
unfolding resolve_discovery_profile
resolve-IsRunOf id custom defaults run h =
    let (known, k) = guard_bind _ _ _ h in
    let (profile, found, l) =
      or_throw_bind (find (λ (p : Profile). p.id == id) (discovery_profiles defaults)) _ _ k in
    let c = if id == "custom" then custom else profile.choice in
    (c, find-Chooses id custom defaults profile found, run_of-IsRunOf c run l)
