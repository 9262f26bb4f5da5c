-- ===== src/Ipam/Decisions.antt =====
-- What `assertContext` answers, told from the roles and the group data.
use management_app.Base.{
  ◌≡◌, refl, ◌⊎◌, inl, inr, ◌↔◌, ◌≢◌, arith, Elem, Bool-cases, Option-cases, String, true, false,
  ◌&&◌, Option, none, some, List, eq_iff, if◌then◌else◌, ok, err,
}
use management_app.Base.HttpError.{not_found, forbidden}
use management_app.Access.{
  User, IpamAction, scoped, read, admin, has_role, has_application_role, can_use_ipam,
}
use management_app.Access.Laws.{no_role_no_access, on_ipam}
use management_app.Collections.Texts.{includes_iff}
use management_app.Ipam.Access.{Context, Queries, Grant, grants, site_ids, is_in, assert_context}
use management_app.Ipam.Rights.{HasGrant, all_grants, HasGrant-of_site_ids, site_ids-of_HasGrant}

-- The user has the role for the action and a permission on the site of the context.
abbrev pub HasSiteRight : Queries → User → IpamAction → Context → Type 0
HasSiteRight db user action c =
    (site : String) × (c.site_id ≡ some site)
    × (site ≢ "")
    × (can_use_ipam user action ≡ true)
    × HasGrant db user action site

-- The user is an administrator or has the right on the site.
abbrev pub MayAct : Queries → User → IpamAction → Context → Type 0
MayAct db user action c =
    (has_role user admin ≡ true)
    ⊎ ((site : String) × (c.site_id ≡ some site)
        × (site ≢ "")
        × (can_use_ipam user action ≡ true)
        × HasGrant db user action site)

pub grants-admin : (db : Queries) (u : User) → has_role u admin ≡ true → grants db u ≡ none
unfolding grants
grants-admin db u h = rw h

pub grants-none : (db : Queries) (u : User) → grants db u ≡ none → has_role u admin ≡ true
unfolding grants
grants-none db u h = ground arith

grants-some :
    (db : Queries) (u : User) (gs : List Grant)
    → grants db u ≡ some gs
    → (has_role u admin ≡ false)
      × ((gs ≡ all_grants db u) ⊎ ((a : IpamAction) → can_use_ipam u a ≡ false))
unfolding grants
grants-some db u gs h = elim (Bool-cases (has_role u admin)) [
  | inl yes_admin ↦ absurd (ground (arith, yes_admin))
  | inr plain ↦ elim (Bool-cases (has_application_role u)) [
    | inl member ↦ (plain, inl (ground (arith, plain, member)))
    | inr nobody ↦ (plain, inr (λ a. no_role_no_access u (on_ipam a) nobody))
  ]
]

pub is_in_iff :
    (o : Option String) (ids : List String)
    → (is_in o ids ≡ true) ↔ ((s : String) × (o ≡ some s) × (s ≢ "") × Elem s ids)
is_in_iff none ids = ((λ h. absurd (cc)), (λ h. absurd (cc (h.1))))
is_in_iff (some x) ids = (to, from)
  where
    to : is_in (some x) ids ≡ true → (s : String) × (some x ≡ some s) × (s ≢ "") × Elem s ids
    to h = (x, refl, ground (arith, eq_iff x ""), (includes_iff x ids).0 (ground arith))

    from : (s : String) × (some x ≡ some s) × (s ≢ "") × Elem s ids → is_in (some x) ids ≡ true
    from (s, e, ne, m) =
        let same : x ≡ s = cc in rw same (ground (arith, eq_iff s "", (includes_iff s ids).1 m))

-- The test of `assertContext`, for a user who is no administrator.
pub site_test_iff :
    (db : Queries) (u : User) (a : IpamAction) (c : Context) (gs : List Grant)
    → grants db u ≡ some gs
    → ((can_use_ipam u a && is_in c.site_id (site_ids gs a)) ≡ true) ↔ HasSiteRight db u a c
site_test_iff db u a c gs h = (to, from)
  where
    to : (can_use_ipam u a && is_in c.site_id (site_ids gs a)) ≡ true → HasSiteRight db u a c
    to t = elim (grants-some db u gs h).1 [
      | inl all ↦
          let (s, e, ne, m) = (is_in_iff c.site_id (site_ids gs a)).0 (ground arith) in
          (s, e, ne, ground arith, HasGrant-of_site_ids db u a s (rw all at m))
      | inr nothing ↦ absurd (ground (arith, nothing a))
    ]

    from : HasSiteRight db u a c → (can_use_ipam u a && is_in c.site_id (site_ids gs a)) ≡ true
    from (s, e, ne, may, g) = elim (grants-some db u gs h).1 [
      | inl all ↦
          let held = site_ids-of_HasGrant db u a s g in
          let inside = (is_in_iff c.site_id (site_ids gs a)).1 (s, e, ne, rw all held) in
          ground (arith, inside)
      | inr nothing ↦ absurd (ground (arith, nothing a))
    ]

-- The three answers, by the two tests.
pub assert_context-some :
    (db : Queries) (u : User) (a : IpamAction) (c : Context) (gs : List Grant)
    → grants db u ≡ some gs
    → assert_context db u a c ≡ (
        if can_use_ipam u a && is_in c.site_id (site_ids gs a)
        then ok tt
        else if can_use_ipam u (scoped read) && is_in c.site_id (site_ids gs (scoped read))
        then err (forbidden "IPAM_SCOPE_FORBIDDEN")
        else err (not_found "IPAM_RESOURCE_NOT_FOUND"))
unfolding assert_context
assert_context-some db u a c gs h = rw (h, assert_context)

pub assert_context-admin :
    (db : Queries) (u : User) (a : IpamAction) (c : Context)
    → has_role u admin ≡ true
    → assert_context db u a c ≡ ok tt
unfolding assert_context
assert_context-admin db u a c h = rw (grants-admin db u h, assert_context)

-- `assertContext` passes exactly for an administrator, or for a user whose role allows the action
-- and one of whose groups has a permission for it on the site of the context.
pub assert_context_iff :
    (db : Queries) (u : User) (a : IpamAction) (c : Context)
    → (assert_context db u a c ≡ ok tt) ↔ MayAct db u a c
assert_context_iff db u a c = (to, from)
  where
    to : assert_context db u a c ≡ ok tt → MayAct db u a c
    to h = elim (Option-cases (grants db u)) [
      | inl free ↦ inl (grants-none db u free)
      | inr (gs, e) ↦
          let t = site_test_iff db u a c gs e in
          let plain = assert_context-some db u a c gs e in inr (t.0 (ground (arith, plain)))
    ]

    from : MayAct db u a c → assert_context db u a c ≡ ok tt
    from (inl h) = assert_context-admin db u a c h
    from (inr r) = elim (Option-cases (grants db u)) [
      | inl free ↦ assert_context-admin db u a c (grants-none db u free)
      | inr (gs, e) ↦
          let t = (site_test_iff db u a c gs e).1 r in rw (assert_context-some db u a c gs e, t)
    ]

-- `assertContext` lets a user act, or answers "forbidden" to one who passes its check for reading, or
-- else "not found", which is then also its answer to the check for reading.
pub assert_context_refusal :
    (db : Queries) (u : User) (a : IpamAction) (c : Context)
    → (assert_context db u a c ≡ ok tt)
      ⊎ ((assert_context db u a c ≡ err (forbidden "IPAM_SCOPE_FORBIDDEN"))
          × (assert_context db u (scoped read) c ≡ ok tt))
      ⊎ ((assert_context db u a c ≡ err (not_found "IPAM_RESOURCE_NOT_FOUND"))
          × (assert_context db u (scoped read) c ≡ err (not_found "IPAM_RESOURCE_NOT_FOUND")))
assert_context_refusal db u a c = elim (Option-cases (grants db u)) [
  | inl free ↦ inl (assert_context-admin db u a c (grants-none db u free))
  | inr (gs, e) ↦
      ground
        (arith, assert_context-some db u a c gs e, assert_context-some db u (scoped read) c gs e)
]
