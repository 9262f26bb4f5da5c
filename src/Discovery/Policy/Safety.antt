-- ===== src/Discovery/Policy/Safety.antt =====
-- What a target that passes `assertDiscoveryAllowed` is.
use management_app.Base.{
  ℕ, ◌≤◌, ◌≡◌, refl, sym, ap, ◌∙◌, inl, inr, arith, true, false, not, Option, List, [], ◌∷◌, map,
  any, is_empty, Elem, Elem-of_any, any-false, Elem-of_filter, Elem-of_map, Result, ok, bind-eq-ok,
  guard_bind,
}
use management_app.Text.{Text, trim}
use management_app.Text.Trim.{trim_idem}
use management_app.Text.Sets.{set_of, Elem-set_of}
use management_app.Discovery.Addresses.{Failure}
use management_app.Discovery.Networks.{Network, Platform, parse_network, overlaps, contained, Holds}
use management_app.Discovery.Networks.Blocks.{parse_network_lem}
use management_app.Discovery.Policy.{
  forbidden_cidrs, allowed_items, trimmed_items, parse_all, normalize_allowed_cidrs,
  assert_discovery_allowed,
}

ok_inj : (n p : Network) → ◌≡◌ {A = Result Failure Network} (ok n) (ok p) → n ≡ p
ok_inj n p h = cc

-- The networks are those of the texts.
Elem-parse_all :
    (js : Platform) (ts : List Text) (ns : List Network) (t : Text) (n : Network)
    → parse_all js ts ≡ ok ns
    → Elem t ts
    → parse_network js t ≡ ok n
    → Elem n ns
unfolding parse_all
Elem-parse_all js [] ns t n h m e = absurd m
Elem-parse_all js (x ∷ ts) ns t n h m e =
    let (p, first, h1) = bind-eq-ok (parse_network js x) _ h in
    let (ps, others, h2) = bind-eq-ok (parse_all js ts) _ h1 in
    let whole : p ∷ ps ≡ ns = cc in
    rw (← whole) (inside ps m first (λ later. Elem-parse_all js ts ps t n others later e))
  where
    inside :
        {p : Network} (ps : List Network)
        → Elem t (x ∷ ts)
        → parse_network js x ≡ ok p
        → (Elem t ts → Elem n ps)
        → Elem n (p ∷ ps)
    inside ps (inl here) first rest = inl (ok_inj n _ (sym e ∙ ap (parse_network js) here ∙ first))
    inside ps (inr later) first rest = inr (rest later)

parse_all-Elem :
    (js : Platform) (ts : List Text) (ns : List Network) (n : Network)
    → parse_all js ts ≡ ok ns
    → Elem n ns
    → (t : Text) × Elem t ts × (parse_network js t ≡ ok n)
unfolding parse_all
parse_all-Elem js [] ns n h m = let none_there : [] ≡ ns = cc in absurd (rw (← none_there) at m)
parse_all-Elem js (x ∷ ts) ns n h m =
    let (p, first, h1) = bind-eq-ok (parse_network js x) _ h in
    let (ps, others, h2) = bind-eq-ok (parse_all js ts) _ h1 in
    let whole : p ∷ ps ≡ ns = cc in
    origin ps first (λ later. parse_all-Elem js ts ps n others later) (rw (← whole) at m)
  where
    origin :
        {p : Network} (ps : List Network)
        → parse_network js x ≡ ok p
        → (Elem n ps → (t : Text) × Elem t ts × (parse_network js t ≡ ok n))
        → Elem n (p ∷ ps)
        → (t : Text) × Elem t (x ∷ ts) × (parse_network js t ≡ ok n)
    origin ps first rest (inl here) = (x, inl refl, rw here first)
    origin ps first rest (inr later) = let (t, k, e) = rest later in (t, inr k, e)

-- Trimming changes nothing for `parseNetwork`, which trims.
parse_network-trim : (js : Platform) (t : Text) → parse_network js (trim t) ≡ parse_network js t
unfolding parse_network
parse_network-trim js t = rw (trim_idem t) refl

-- The steps of `assertDiscoveryAllowed` that have passed.
pub assert_steps :
    (js : Platform) (target : Text) (setting : Option (List (Option Text))) (n : Network)
    → assert_discovery_allowed js target setting ≡ ok n
    → (blocked : List Network) × (cidrs : List Text) × (allowed : List Network) × (parse_network js
          target
        ≡ ok n)
      × (parse_all js forbidden_cidrs ≡ ok blocked)
      × (any (overlaps n) blocked ≡ false)
      × (normalize_allowed_cidrs js setting ≡ ok cidrs)
      × (parse_all js cidrs ≡ ok allowed)
      × (any (contained n) allowed ≡ true)
unfolding assert_discovery_allowed
assert_steps js target setting n h =
    let (t, e1, h1) = bind-eq-ok (parse_network js target) _ h in
    let (blocked, e2, h2) = bind-eq-ok (parse_all js forbidden_cidrs) _ h1 in
    let (e3, h3) = guard_bind (not (any (overlaps t) blocked)) _ _ h2 in
    let (cidrs, e4, h4) = bind-eq-ok (normalize_allowed_cidrs js setting) _ h3 in
    let (allowed, e5, h5) = bind-eq-ok (parse_all js cidrs) _ h4 in
    let (e6, h6) = guard_bind (any (contained t) allowed) _ _ h5 in
    let same : t ≡ n = cc in
    rw (← same) (blocked, cidrs, allowed, e1, e2, ground (arith, e3), e4, e5, e6)

-- Two networks that do not overlap have no address in common.
apart-of_overlaps :
    (n p : Network) (a : ℕ) → overlaps n p ≡ false → p.version ≡ n.version → Holds n a → ¬ Holds p a
unfolding overlaps
apart-of_overlaps n p a h same inside other = ground arith

-- A target that is accepted has no address in one of the blocked networks (loopback, link-local,
-- documentation, multicast and the others of `FORBIDDEN_CIDRS`), whatever the allowlist says.
pub no_forbidden_address :
    (js : Platform) (target : Text) (setting : Option (List (Option Text))) (n : Network)
    → assert_discovery_allowed js target setting ≡ ok n
    → (cidr : Text) (p : Network) (a : ℕ) → Elem cidr forbidden_cidrs
    → parse_network js cidr ≡ ok p
    → p.version ≡ n.version
    → Holds n a
    → ¬ Holds p a
no_forbidden_address js target setting n h cidr p a listed parsed same inside =
    let (blocked, _, _, _, all_parsed, clear, _, _, _) = assert_steps js target setting n h in
    let there = Elem-parse_all js forbidden_cidrs blocked cidr p all_parsed listed parsed in
    apart-of_overlaps n p a (any-false (overlaps n) p blocked clear there) same inside

-- The network `n` lies within `p`.
abbrev pub IsWithin : Network → Network → Type 0
IsWithin n p = (n.version ≡ p.version) × (p.first ≤ n.first) × (n.last ≤ p.last)

contained-IsWithin : (n p : Network) → contained n p ≡ true → IsWithin n p
unfolding contained
contained-IsWithin n p h = ground arith

-- Each network of the allowlist is that of an item of the setting.
allowed-of_setting :
    (js : Platform) (setting : Option (List (Option Text))) (cidrs : List Text) (cidr : Text)
    → normalize_allowed_cidrs js setting ≡ ok cidrs
    → Elem cidr cidrs
    → (item : Text) × Elem item (allowed_items setting) × (cidr ≡ trim item)
unfolding normalize_allowed_cidrs
allowed-of_setting js setting cidrs cidr h m =
    let (networks, parsed, h1) = bind-eq-ok (parse_all js (trimmed_items setting)) _ h in
    let set : set_of [] (map (λ (n : Network). n.cidr) networks) ≡ cidrs = cc in
    elim ((Elem-set_of cidr [] (map (λ (n : Network). n.cidr) networks)).0 (rw (← set) at m)) [
      | inr nothing ↦ absurd nothing
      | inl listed ↦
          let (n, k, e) = Elem-of_map (λ (n : Network). n.cidr) cidr networks listed in
          let (t, l, read) = parse_all-Elem js (trimmed_items setting) networks n parsed k in
          let (_, _, _, _, _, shape) = parse_network_lem js t n read in
          let own : n.cidr ≡ trim t = ap (λ (x : Network). x.cidr) shape in
          let (inside, _) =
            Elem-of_filter (λ t. not (is_empty t)) t (map trim (allowed_items setting)) l in
          let (item, j, f) = Elem-of_map trim t (allowed_items setting) inside in
          (item, j, e ∙ own ∙ ap trim f ∙ trim_idem item)
    ]

-- A target that is accepted lies as a whole within the network of one item of the allowlist.
pub lies_in_allowed_network :
    (js : Platform) (target : Text) (setting : Option (List (Option Text))) (n : Network)
    → assert_discovery_allowed js target setting ≡ ok n
    → (item : Text) × (p : Network) × Elem item (allowed_items setting)
      × (parse_network js item ≡ ok p)
      × IsWithin n p
lies_in_allowed_network js target setting n h =
    let (_, cidrs, allowed, _, _, _, normal, all_parsed, some_one) =
      assert_steps js target setting n h in
    let (p, m, c) = Elem-of_any (contained n) allowed some_one in
    let (cidr, k, parsed) = parse_all-Elem js cidrs allowed p all_parsed m in
    let (item, listed, is_trim) = allowed-of_setting js setting cidrs cidr normal k in
    let back : parse_network js item ≡ ok p =
      rw (← parse_network-trim js item) (rw is_trim at parsed) in
    (item, p, listed, back, contained-IsWithin n p c)
