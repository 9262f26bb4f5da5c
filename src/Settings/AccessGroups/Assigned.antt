-- ===== src/Settings/AccessGroups/Assigned.antt =====
-- What the assignment of a group to a site does to the permissions.
use management_app.Base.{
  ◌≡◌, refl, sym, ◌∙◌, ◌⊎◌, inl, inr, ◌↔◌, arith, String, Bool, true, false, not, ◌&&◌, List, [],
  ◌∷◌, ◌++◌, filter, any, ◌==◌, eq_iff, Elem, Elem-append, Elem-append_left, Elem-append_right,
  Elem-of_filter, Elem-filter, Elem-of_any, Bool-cases, ok, guard_bind,
}
use mathlib.Core.Path.{subst, ap}
use management_app.Collections.Texts.{includes, includes_iff, unique, Elem-unique}
use management_app.Settings.AccessGroups.{Permission, Places, State, is_group, is_permission_of}
use management_app.Settings.AccessGroups.Sites.{add_permissions, is_dropped, assign_site}
use management_app.Settings.AccessGroups.Kept.{ok_injective}

pub same_row :
    (group at p : String) (r : Permission)
    → is_permission_of group at r ≡ true
    → r.permission ≡ p
    → r ≡ record { group_id = group; site_id = at; permission = p }
same_row group at p r h e =
    let g : r.group_id ≡ group = ground (arith, eq_iff r.group_id group) in
    let a : r.site_id ≡ at = ground (arith, eq_iff r.site_id at) in cc

own_row :
    (group at p : String)
    → is_permission_of group at (record { group_id = group; site_id = at; permission = p }) ≡ true
own_row group at p = ground (arith, (eq_iff group group).1 refl, (eq_iff at at).1 refl)

-- The rows of the list, and one for each of the permissions.
abbrev Has : String → String → List String → List Permission → Permission → Type 0
Has group at ps table r =
    Elem r table ⊎ ((is_permission_of group at r ≡ true) × Elem r.permission ps)

known_row :
    (group at p : String) (ps : List String) (table : List Permission) (r : Permission)
    → any (λ q. is_permission_of group at q && q.permission == p) table ≡ true
    → Has group at ps table r ↔ Has group at (p ∷ ps) table r
known_row group at p ps table r old = (
  (λ m. elim m [ inl k ↦ inl k | inr (k, n) ↦ inr (k, inr n) ]),
  (λ m. elim m [
    | inl k ↦ inl k
    | inr (k, inl e) ↦
        let (q, n, t) =
          Elem-of_any (λ q. is_permission_of group at q && q.permission == p) table old in
        let one = same_row group at p q (ground arith) (ground (arith, eq_iff q.permission p)) in
        inl (subst (λ x. Elem x table) (one ∙ sym (same_row group at p r k e)) n)
    | inr (k, inr n) ↦ inr (k, n)
  ]),
)

new_row :
    (group at p : String) (ps : List String) (table : List Permission) (r : Permission)
    → Has group at ps (table ++ record { group_id = group; site_id = at; permission = p } ∷ []) r
      ↔ Has group at (p ∷ ps) table r
new_row group at p ps table r = (
  (λ m. elim m [
    | inl k ↦ elim (Elem-append r table (row ∷ []) k) [
      | inl old ↦ inl old
      | inr (inl e) ↦ inr (
        subst (λ x. is_permission_of group at x ≡ true) (sym e) (own_row group at p),
        inl (ap (λ x. x.permission) e),
      )
      | inr (inr nothing) ↦ absurd nothing
    ]
    | inr (k, n) ↦ inr (k, inr n)
  ]),
  (λ m. elim m [
    | inl k ↦ inl (Elem-append_left r table (row ∷ []) k)
    | inr (k, inl e) ↦ inl (Elem-append_right r table (row ∷ []) (inl (same_row group at p r k e)))
    | inr (k, inr n) ↦ inr (k, n)
  ]),
)
  where
    row : Permission
    row = record { group_id = group; site_id = at; permission = p }

then_iff : {A B C : Type 0} → A ↔ B → B ↔ C → A ↔ C
then_iff (f, g) (h, k) = ((λ a. h (f a)), (λ c. g (k c)))

pub add_permissions_iff :
    (group at : String) (ps : List String) (table : List Permission) (r : Permission)
    → Elem r (add_permissions group at ps table) ↔ Has group at ps table r
unfolding add_permissions
add_permissions_iff group at [] table r =
    ((λ m. inl m), (λ m. elim m [ inl k ↦ k | inr k ↦ absurd k.1 ]))
add_permissions_iff group at (p ∷ ps) table r =
    let row : Permission = record { group_id = group; site_id = at; permission = p } in
    elim (Bool-cases (any (λ q. is_permission_of group at q && q.permission == p) table)) [
      | inl old ↦
          rw old (
            then_iff (add_permissions_iff group at ps table r)
              (known_row group at p ps table r old))
      | inr fresh ↦ rw fresh (
          then_iff (add_permissions_iff group at ps (table ++ row ∷ []) r)
            (new_row group at p ps table r))
    ]

-- After an assignment, the group has at the site the permissions that were asked for and no others; all
-- its other permissions and those of other groups are as they were.
pub assign_site_iff :
    (db : Places) (group at : String) (permissions : List String) (s t : State) (r : Permission)
    → assign_site db group at permissions s ≡ ok t
    → Elem r t.permissions ↔ (
        ((is_permission_of group at r ≡ true) × Elem r.permission permissions)
        ⊎ ((is_permission_of group at r ≡ false) × Elem r s.permissions))
unfolding assign_site
assign_site_iff db group at permissions s t r h =
    let (there, k) = guard_bind (includes at db.sites) _ _ h in
    let (known, e) = guard_bind (any (is_group group) s.groups) _ _ k in
    subst
      (λ (x : State). Elem r x.permissions ↔ (
        ((is_permission_of group at r ≡ true) × Elem r.permission permissions)
        ⊎ ((is_permission_of group at r ≡ false) × Elem r s.permissions)))
      (ok_injective e) (to, from)
  where
    ps : List String
    ps = unique permissions

    stays : Permission → Bool
    stays p = not (is_dropped group at ps p)

    to :
        Elem r (add_permissions group at ps (filter stays s.permissions))
        → ((is_permission_of group at r ≡ true) × Elem r.permission permissions)
          ⊎ ((is_permission_of group at r ≡ false) × Elem r s.permissions)
    to m = elim ((add_permissions_iff group at ps (filter stays s.permissions) r).0 m) [
      | inl k ↦
          let (n, stayed) = Elem-of_filter stays r s.permissions k in
          elim (Bool-cases (is_permission_of group at r)) [
            | inl own ↦ inl (
              own,
              (Elem-unique r.permission permissions).0
                  ((includes_iff r.permission ps).0 (ground arith)),
            )
            | inr other ↦ inr (other, n)
          ]
      | inr (own, n) ↦ inl (own, (Elem-unique r.permission permissions).0 n)
    ]

    from :
        ((is_permission_of group at r ≡ true) × Elem r.permission permissions)
          ⊎ ((is_permission_of group at r ≡ false) × Elem r s.permissions)
        → Elem r (add_permissions group at ps (filter stays s.permissions))
    from (inl (own, n)) =
        (add_permissions_iff group at ps (filter stays s.permissions) r).1
          (inr (own, (Elem-unique r.permission permissions).1 n))
    from (inr (other, n)) =
        (add_permissions_iff group at ps (filter stays s.permissions) r).1
          (inl (Elem-filter stays r s.permissions n (ground arith)))
