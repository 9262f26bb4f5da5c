-- ===== src/Ipam/Rights.antt =====
-- What `assertContext` decides, told from the group data alone.
use management_app.Base.{
  ◌≡◌, refl, sym, ◌⊎◌, inl, inr, ◌↔◌, ◌≢◌, arith, Elem, Elem-map, Elem-of_map, Elem-filter,
  Elem-of_filter, String, true, false, List, [], ◌∷◌, map, eq_iff, filter, flat_map, Elem-append,
  Elem-append_left, Elem-append_right,
}
use management_app.Access.{User, IpamAction, scoped, read, create, update, delete, discover, import}
use management_app.Collections.Texts.{unique, Elem-unique}
use management_app.Ipam.Access.{
  Queries, Grant, Assignment, counts, site_ids, is_read, label, assignment_grants,
}

-- One of the user's groups has a permission on the site that counts for the action: the action's
-- own, or for reading any but the mark of membership.
abbrev pub HasGrant : Queries → User → IpamAction → String → Type 0
HasGrant db user action site =
    (group : List Assignment) × (a : Assignment) × (p : String) × Elem group
      (db.memberships user.id)
    × Elem a group
    × Elem p a.permissions
    × (a.site_id ≡ site)
    × ((p ≡ label action) ⊎ ((action ≡ scoped read) × (p ≢ "SITE_MEMBERSHIP")))

module _ {A B : Type 0} (f : A → List B) where
  Elem-of_flat_map :
      (b : B) (xs : List A) → Elem b (flat_map f xs) → (a : A) × Elem a xs × Elem b (f a)
  Elem-of_flat_map b [] m = absurd m
  Elem-of_flat_map b (x ∷ xs) m = elim (Elem-append b (f x) (flat_map f xs) m) [
    | inl l ↦ (x, inl refl, l)
    | inr r ↦ let (a, n, k) = Elem-of_flat_map b xs r in (a, inr n, k)
  ]

  Elem-flat_map : (a : A) (b : B) (xs : List A) → Elem a xs → Elem b (f a) → Elem b (flat_map f xs)
  Elem-flat_map a b [] m k = absurd m
  Elem-flat_map a b (x ∷ xs) (inl e) k = Elem-append_left b (f x) (flat_map f xs) (rw e at k)
  Elem-flat_map a b (x ∷ xs) (inr m) k =
      Elem-append_right b (f x) (flat_map f xs) (Elem-flat_map a b xs m k)

is_read_iff : (action : IpamAction) → (is_read action ≡ true) ↔ (action ≡ scoped read)
is_read_iff (scoped read) = ((λ h. refl), (λ h. refl))
is_read_iff (scoped _) = grind arith
is_read_iff _ = grind arith

counts_iff :
    (action : IpamAction) (g : Grant)
    → (counts action g ≡ true) ↔ (
        (g.permission ≡ label action)
        ⊎ ((action ≡ scoped read) × (g.permission ≢ "SITE_MEMBERSHIP")))
counts_iff action g =
    let reading = is_read_iff action in
    grind
      (arith, reading, eq_iff g.permission "SITE_MEMBERSHIP", eq_iff g.permission (label action))

membership_counts_not :
    (action : IpamAction) (s : String)
    → counts action (record { site_id = s; permission = "SITE_MEMBERSHIP" }) ≡ false
membership_counts_not (scoped read) s = refl
membership_counts_not (scoped create) s = refl
membership_counts_not (scoped update) s = refl
membership_counts_not (scoped delete) s = refl
membership_counts_not discover s = refl
membership_counts_not import s = refl

Elem-site_ids :
    (site : String) (gs : List Grant) (action : IpamAction)
    → Elem site (site_ids gs action)
      ↔ ((g : Grant) × Elem g gs × (counts action g ≡ true) × (site ≡ g.site_id))
unfolding site_ids
Elem-site_ids site gs action = (to, from)
  where
    ids : List String
    ids = map (λ (g : Grant). g.site_id) (filter (counts action) gs)

    to :
        Elem site (unique ids)
        → (g : Grant) × Elem g gs × (counts action g ≡ true) × (site ≡ g.site_id)
    to m =
        let (g, n, e) =
          Elem-of_map (λ (g : Grant). g.site_id) site (filter (counts action) gs)
            ((Elem-unique site ids).0 m) in
        let (k, h) = Elem-of_filter (counts action) g gs n in (g, k, h, e)

    from :
        (g : Grant) × Elem g gs × (counts action g ≡ true) × (site ≡ g.site_id)
        → Elem site (unique ids)
    from (g, k, h, e) =
        (Elem-unique site ids).1
          (rw e (Elem-map (λ (g : Grant). g.site_id) g _ (Elem-filter (counts action) g gs k h)))

-- A grant of the user that counts comes from a permission of one of the groups.
Elem-of_grants :
    (db : Queries) (user : User) (g : Grant)
    → Elem g (flat_map (flat_map assignment_grants) (db.memberships user.id))
    → (group : List Assignment) × (a : Assignment) × Elem group (db.memberships user.id)
      × Elem a group
      × Elem g (assignment_grants a)
Elem-of_grants db user g m =
    let (group, n, k) =
      Elem-of_flat_map (flat_map assignment_grants) g (db.memberships user.id) m in
    let (a, o, l) = Elem-of_flat_map assignment_grants g group k in (group, a, n, o, l)

abbrev pub all_grants : Queries → User → List Grant
all_grants db user = flat_map (flat_map assignment_grants) (db.memberships user.id)

pub HasGrant-of_site_ids :
    (db : Queries) (user : User) (action : IpamAction) (site : String)
    → Elem site (site_ids (all_grants db user) action)
    → HasGrant db user action site
HasGrant-of_site_ids db user action site m =
    let (g, n, h, e) = (Elem-site_ids site (all_grants db user) action).0 m in
    let (group, a, p, q, k) = Elem-of_grants db user g n in found g group a p q h e k
  where
    found :
        (g : Grant) (group : List Assignment) (a : Assignment)
        → Elem group (db.memberships user.id)
        → Elem a group
        → counts action g ≡ true
        → site ≡ g.site_id
        → Elem g (assignment_grants a)
        → HasGrant db user action site
    found g group a p q h e (inl same) =
        let no : counts action g ≡ false = rw same (membership_counts_not action a.site_id) in
        absurd (cc)
    found g group a p q h e (inr k) =
        let (perm, r, same) =
          Elem-of_map
            (λ (x : String). let r : Grant = record { site_id = a.site_id; permission = x } in r) g
            a.permissions k in
        (group, a, perm, p, q, r, sym (rw same at e), rw same at ((counts_iff action g).0 h))

pub site_ids-of_HasGrant :
    (db : Queries) (user : User) (action : IpamAction) (site : String)
    → HasGrant db user action site
    → Elem site (site_ids (all_grants db user) action)
site_ids-of_HasGrant db user action site (group, a, p, in_db, in_group, listed, same, counting) =
    (Elem-site_ids site (all_grants db user) action).1 (
      g,
      Elem-flat_map (flat_map assignment_grants) group g (db.memberships user.id) in_db (
          Elem-flat_map assignment_grants a g group in_group (
            inr (
              Elem-map
                (λ (x : String).
                  let r : Grant = record { site_id = a.site_id; permission = x } in r)
                p a.permissions listed))),
      (counts_iff action g).1 counting,
      sym same,
    )
  where
    g : Grant
    g = record { site_id = a.site_id; permission = p }
