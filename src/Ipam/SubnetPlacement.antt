-- ===== src/Ipam/SubnetPlacement.antt =====
-- `assertSubnetPlacement` of ipam-access.service.ts: the site, VLAN, VRF and parent of a subnet
-- belong to one site.
use management_app.Base.{
  ◌≡◌, refl, sym, inl, inr, ◌≢◌, ◌⊎◌, ◌≤◌, arith, Elem, String, Bool, true, false, not, ◌||◌,
  Option, none, some, List, [], ◌∷◌, ◌==◌, eq_iff, if◌then◌else◌, Result, ok, err, ◌>>◌, guard,
  guard_bind, seq-eq-ok, length, leb,
}
use management_app.Base.HttpError.{HttpError, bad_request, not_found}
use management_app.Access.{User, IpamAction}
use management_app.Collections.Texts.{unique, Elem-unique}
use management_app.Ipam.Access.{Context, Queries, Subnet, Vlan, Vrf, assert_context}

pub record Placement : Type 0 where
  pub site_id : Option String
  pub vlan_id : Option String
  pub vrf_id : Option String
  pub parent_subnet_id : Option String

-- `id ? find(id) : null`
abbrev pub look_up : {A : Type 0} → (String → Option A) → Option String → Option A
look_up find none = none
look_up find (some id) = if id == "" then none else find id

-- `id && !found`
abbrev pub is_missing : {A : Type 0} → Option String → Option A → Bool
is_missing none found = false
is_missing (some id) none = not (id == "")
is_missing (some id) (some a) = false

-- `[…].filter(Boolean)` on optional ids.
abbrev pub present : List (Option String) → List String
present [] = []
present (none ∷ ids) = present ids
present (some id ∷ ids) = if id == "" then present ids else id ∷ present ids

-- `found?.field`
abbrev pub field_of : {A : Type 0} → Option A → (A → Option String) → Option String
field_of none f = none
field_of (some a) f = f a

-- `a ?? b`
abbrev pub or_else : Option String → Option String → Option String
or_else none b = b
or_else (some a) b = some a

abbrev pub first : List String → Option String
first [] = none
first (id ∷ ids) = some id

abbrev pub site_options : Queries → Placement → List (Option String)
site_options db p =
    look_up db.site p.site_id
    ∷ field_of (look_up db.vlan p.vlan_id) (λ v. v.site_id)
    ∷ field_of (look_up db.vrf p.vrf_id) (λ v. some v.site_id)
    ∷ field_of (look_up db.subnet p.parent_subnet_id) (λ s. s.site_id)
    ∷ []

-- The sites of the entities that are found, without the absent ones.
abbrev pub placement_sites : Queries → Placement → List String
placement_sites db p = present (site_options db p)

abbrev pub placement_context : Queries → Placement → Context
placement_context db p =
    let vlan = look_up db.vlan p.vlan_id in
    let vrf = look_up db.vrf p.vrf_id in
    let parent = look_up db.subnet p.parent_subnet_id in
    record {
      site_id = first (placement_sites db p);
      vrf_id = or_else (field_of vrf (λ v. some v.id)) (field_of parent (λ s. s.vrf_id));
      vlan_id = or_else (field_of vlan (λ v. some v.id)) (field_of parent (λ s. s.vlan_id));
      subnet_id = field_of parent (λ s. some s.id);
    }

-- Something is named and not found.
abbrev pub names_missing : Queries → Placement → Bool
names_missing db p =
    is_missing p.site_id (look_up db.site p.site_id)
    || (is_missing p.vlan_id (look_up db.vlan p.vlan_id)
        || (is_missing p.vrf_id (look_up db.vrf p.vrf_id)
            || is_missing p.parent_subnet_id (look_up db.subnet p.parent_subnet_id)))

unfoldable pub assert_subnet_placement :
    Queries → User → IpamAction → Placement → Result HttpError Context
assert_subnet_placement db user action p = do
  guard (not (names_missing db p)) (not_found "IPAM_PLACEMENT_NOT_FOUND")
  guard (leb (length (unique (placement_sites db p))) 1)
      (bad_request "IPAM_PLACEMENT_SITE_MISMATCH")
  assert_context db user action (placement_context db p)
  ok (placement_context db p)

one_element : (s t : String) (xs : List String) → length xs ≤ 1 → Elem s xs → Elem t xs → s ≡ t
one_element s t [] h m n = absurd m
one_element s t (x ∷ []) h (inl e) (inl f) = cc
one_element s t (x ∷ []) h (inl e) (inr n) = absurd n
one_element s t (x ∷ []) h (inr m) n = absurd m
one_element s t (x ∷ y ∷ xs) h m n = absurd (omega arith)

Elem-present :
    (s : String) (os : List (Option String)) → s ≢ "" → Elem (some s) os → Elem s (present os)
Elem-present s [] real m = absurd m
Elem-present s (none ∷ os) real (inl e) = absurd (cc)
Elem-present s (none ∷ os) real (inr m) = Elem-present s os real m
Elem-present s (some x ∷ os) real m =
    ground (arith, eq_iff x "", eq_iff s "", Elem-present s os real)

first_of_one :
    (s : String) (ids : List String) → length (unique ids) ≤ 1 → Elem s ids → first ids ≡ some s
first_of_one s [] h m = absurd m
first_of_one s (x ∷ ids) h m =
    let e =
      one_element x s (unique (x ∷ ids)) h ((Elem-unique x (x ∷ ids)).1 (inl refl))
        ((Elem-unique s (x ∷ ids)).1 m) in
    rw e

-- All that the placement names belongs to the site of the context.
pub record IsInOneSite (db : Queries) (p : Placement) (c : Context) : Type 0 where
  pub of_site : (s : String) → look_up db.site p.site_id ≡ some s → s ≢ "" → c.site_id ≡ some s
  pub of_vlan :
      (v : Vlan) (s : String)
      → look_up db.vlan p.vlan_id ≡ some v
      → v.site_id ≡ some s
      → s ≢ ""
      → c.site_id ≡ some s
  pub of_vrf :
      (v : Vrf) → look_up db.vrf p.vrf_id ≡ some v → v.site_id ≢ "" → c.site_id ≡ some v.site_id
  pub of_parent :
      (n : Subnet) (s : String)
      → look_up db.subnet p.parent_subnet_id ≡ some n
      → n.site_id ≡ some s
      → s ≢ ""
      → c.site_id ≡ some s

-- A placement that is accepted lies in one site, that of the context, and the user may act there.
pub assert_subnet_placement-IsInOneSite :
    (db : Queries) (u : User) (a : IpamAction) (p : Placement) (c : Context)
    → assert_subnet_placement db u a p ≡ ok c
    → IsInOneSite db p c × (assert_context db u a c ≡ ok tt)
unfolding assert_subnet_placement
assert_subnet_placement-IsInOneSite db u a p c h =
    let (_, h1) = guard_bind (not (names_missing db p)) _ _ h in
    let (few, h2) = guard_bind (leb (length (unique (placement_sites db p))) 1) _ _ h1 in
    let (pass, final) = seq-eq-ok (assert_context db u a (placement_context db p)) _ h2 in
    let same : placement_context db p ≡ c = cc in rw (← same) (one_site (ground arith), pass)
  where
    one_site :
        length (unique (placement_sites db p)) ≤ 1 → IsInOneSite db p (placement_context db p)
    one_site few = record {
      of_site = λ s e real. is_first s real (inl (sym e));
      of_vlan = λ v s e at real. is_first s real (inr (inl (rw e (sym at))));
      of_vrf = λ v e real. is_first v.site_id real (inr (inr (inl (rw e refl))));
      of_parent = λ n s e at real. is_first s real (inr (inr (inr (inl (rw e (sym at))))));
    }
      where
        is_first :
            (s : String)
            → s ≢ ""
            → Elem (some s) (site_options db p)
            → (placement_context db p).site_id ≡ some s
        is_first s real m =
            first_of_one s (placement_sites db p) few (Elem-present s (site_options db p) real m)

is_missing-of_none :
    {A : Type 0} (find : String → Option A) (o : Option String) (id : String)
    → o ≡ some id
    → id ≢ ""
    → find id ≡ none
    → is_missing o (look_up find o) ≡ true
is_missing-of_none find o id e real gone =
    let given : (id == "") ≡ false = ground (arith, eq_iff id "") in rw (e, given, gone) (rw given)

-- Nothing that the placement names may be missing: an id that is given and not found is refused.
pub assert_subnet_placement_missing :
    (db : Queries) (u : User) (a : IpamAction) (p : Placement)
    → (((id : String) × (p.site_id ≡ some id) × (id ≢ "") × (db.site id ≡ none))
        ⊎ ((id : String) × (p.vlan_id ≡ some id) × (id ≢ "") × (db.vlan id ≡ none))
        ⊎ ((id : String) × (p.vrf_id ≡ some id) × (id ≢ "") × (db.vrf id ≡ none))
        ⊎ ((id : String) × (p.parent_subnet_id ≡ some id) × (id ≢ "") × (db.subnet id ≡ none)))
    → assert_subnet_placement db u a p ≡ err (not_found "IPAM_PLACEMENT_NOT_FOUND")
unfolding assert_subnet_placement
assert_subnet_placement_missing db u a p missing = rw (missing_named missing)
  where
    missing_named :
        (((id : String) × (p.site_id ≡ some id) × (id ≢ "") × (db.site id ≡ none))
          ⊎ ((id : String) × (p.vlan_id ≡ some id) × (id ≢ "") × (db.vlan id ≡ none))
          ⊎ ((id : String) × (p.vrf_id ≡ some id) × (id ≢ "") × (db.vrf id ≡ none))
          ⊎ ((id : String) × (p.parent_subnet_id ≡ some id) × (id ≢ "") × (db.subnet id ≡ none)))
        → names_missing db p ≡ true
    missing_named (inl (id, e, real, gone)) =
        ground (arith, is_missing-of_none db.site p.site_id id e real gone)
    missing_named (inr (inl (id, e, real, gone))) =
        ground (arith, is_missing-of_none db.vlan p.vlan_id id e real gone)
    missing_named (inr (inr (inl (id, e, real, gone)))) =
        ground (arith, is_missing-of_none db.vrf p.vrf_id id e real gone)
    missing_named (inr (inr (inr (id, e, real, gone)))) =
        ground (arith, is_missing-of_none db.subnet p.parent_subnet_id id e real gone)
