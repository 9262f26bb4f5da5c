-- ===== src/Ipam/Listing.antt =====
-- `whereFor` of ipam-access.service.ts: the filter of the IPAM listings.
use management_app.Base.{
  ◌≡◌, refl, inl, inr, ◌↔◌, ◌≢◌, arith, Elem, Option-cases, String, Bool, true, false, ◌&&◌, Option,
  none, some, List, [], map, if◌then◌else◌, ok,
}
use management_app.Access.{User, IpamAction, can_use_ipam}
use management_app.Collections.Texts.{unique}
use management_app.Ipam.Access.{Context, Queries, Grant, grants, site_ids, is_in, assert_context}
use management_app.Ipam.Decisions.{
  assert_context-admin, assert_context-some, grants-none, is_in_iff,
}

pub data Resource : Type 0 where
  site vrf vlan subnet ip host nat : Resource

-- The `where` of a Prisma query: no restriction, or a list that must hold the row's own id, its
-- site, its subnet's site, or the site of the subnet of one of its addresses.
pub data Where : Type 0 where
  everything : Where
  id_in site_in subnet_site_in some_address_site_in : List String → Where

abbrev pub restrict : Resource → List String → Where
restrict ip ids = subnet_site_in ids
restrict host ids = some_address_site_in ids
restrict _ ids = site_in ids

pub where_for : Queries → User → IpamAction → Resource → Where
where_for db user action resource = elim (grants db user) [
  | none ↦ everything
  | some gs ↦ elim resource [
    | site ↦ id_in (unique (map (λ (g : Grant). g.site_id) gs))
    | other ↦ restrict other (if can_use_ipam user action then site_ids gs action else [])
  ]
]

where_for-none :
    (db : Queries) (u : User) (a : IpamAction) (r : Resource)
    → grants db u ≡ none
    → where_for db u a r ≡ everything
unfolding where_for
where_for-none db u a r h = rw (h, where_for)

-- The sites that the filter lets through, for the resources that are found by their site.
abbrev pub ListsSite : Where → String → Type 0
ListsSite everything s = Unit
ListsSite (id_in ids) s = Elem s ids
ListsSite (site_in ids) s = Elem s ids
ListsSite (subnet_site_in ids) s = Elem s ids
ListsSite (some_address_site_in ids) s = Elem s ids

where_for-some :
    (db : Queries) (u : User) (a : IpamAction) (r : Resource) (gs : List Grant)
    → grants db u ≡ some gs
    → r ≢ site
    → where_for db u a r ≡ restrict r (if can_use_ipam u a then site_ids gs a else [])
unfolding where_for
where_for-some db u a site gs h ne = absurd (ne refl)
where_for-some db u a _ gs h ne = rw (h, where_for)

restrict_iff :
    (r : Resource) (ids : List String) (s : String) → ListsSite (restrict r ids) s ↔ Elem s ids
restrict_iff ip ids s = ((λ m. m), (λ m. m))
restrict_iff _ ids s = ((λ m. m), (λ m. m))

allowed_ids_iff :
    (may : Bool) (ids : List String) (o : Option String) (s : String)
    → o ≡ some s
    → s ≢ ""
    → Elem s (if may then ids else []) ↔ ((may && is_in o ids) ≡ true)
allowed_ids_iff false ids o s at real = ((λ m. absurd m), (λ h. absurd (cc)))
allowed_ids_iff true ids o s at real = (
  (λ m. (is_in_iff o ids).1 (s, at, real, m)),
  (λ h. let (t, e, _, m) = (is_in_iff o ids).0 h in let same : t ≡ s = cc in rw (← same) m),
)

-- The listings show what the single checks allow: a row of a site is listed exactly when
-- `assertContext` passes for that site. (Sites themselves are listed by membership.)
pub where_for_iff :
    (db : Queries) (u : User) (a : IpamAction) (resource : Resource) (c : Context) (s : String)
    → resource ≢ site
    → c.site_id ≡ some s
    → s ≢ ""
    → ListsSite (where_for db u a resource) s ↔ (assert_context db u a c ≡ ok tt)
where_for_iff db u a resource c s ne at real = elim (Option-cases (grants db u)) [
  | inl free ↦
      rw (where_for-none db u a resource free)
        ((λ _. assert_context-admin db u a c (grants-none db u free)), (λ _. tt))
  | inr (gs, e) ↦
      let listed = allowed_ids_iff (can_use_ipam u a) (site_ids gs a) c.site_id s at real in
      let shape = restrict_iff resource (if can_use_ipam u a then site_ids gs a else []) s in
      let answer = assert_context-some db u a c gs e in
      rw (where_for-some db u a resource gs e ne) (
        (λ m. rw (answer, listed.0 (shape.0 m))),
        (λ h. shape.1 (listed.1 (ground (arith, answer)))),
      )
]
