-- ===== src/Settings/AccessGroups/Linked.antt =====
-- What the operations on assignments and rules keep of the tables.
use management_app.Base.{
  ◌≡◌, refl, sym, ◌⊎◌, inl, inr, arith, String, Bool, true, false, not, ◌&&◌, some, List, [], ◌∷◌,
  filter, any, ◌==◌, eq_iff, Elem, Elem-append, Elem-of_filter, Elem-of_map, any-false, Bool-cases,
  if◌then◌else◌, ok, guard_bind, bind-eq-ok, or_throw_bind,
}
use mathlib.Core.Path.{subst, ap}
use management_app.Collections.Texts.{includes, unique}
use management_app.Settings.AccessGroups.{
  Link, Permission, Scope, Rule, Places, State, is_group, is_link, is_permission_of,
}
use management_app.Settings.AccessGroups.Sites.{
  with_link, add_permissions, is_dropped, assign_site, is_in_site, remove_site, scope_site,
  validate_permission, same_scope, create_permission, update_permission, delete_permission,
}
use management_app.Settings.AccessGroups.Scopes.{scope_site-is_in_site}
use management_app.Settings.AccessGroups.Kept.{
  IsAssigned, IsLinked, any-append_left, any-append_right, any-filter, ok_injective,
}
use management_app.Settings.AccessGroups.Assigned.{add_permissions_iff}

with_link-IsLinked :
    (group at : String) (links : List Link) → IsLinked group at (with_link group at links)
with_link-IsLinked group at links = elim (Bool-cases (any (is_link group at) links)) [
  | inl old ↦ rw old old
  | inr fresh ↦ rw fresh (
      any-append_right (is_link group at) links (record { group_id = group; site_id = at } ∷ [])
        (ground (arith, (eq_iff group group).1 refl, (eq_iff at at).1 refl)))
]

with_link-keeps :
    (group at g a : String) (links : List Link)
    → IsLinked g a links
    → IsLinked g a (with_link group at links)
with_link-keeps group at g a links h = elim (Bool-cases (any (is_link group at) links)) [
  | inl old ↦ rw old h
  | inr fresh ↦
      rw fresh
        (any-append_left (is_link g a) links (record { group_id = group; site_id = at } ∷ []) h)
]

with_link-Elem :
    (group at : String) (links : List Link) (l : Link)
    → Elem l (with_link group at links)
    → Elem l links ⊎ ((l.group_id ≡ group) × (l.site_id ≡ at))
with_link-Elem group at links l m = elim (Bool-cases (any (is_link group at) links)) [
  | inl old ↦ inl (rw old at m)
  | inr fresh ↦
      elim (Elem-append l links (record { group_id = group; site_id = at } ∷ []) (rw fresh at m)) [
        | inl k ↦ inl k
        | inr (inl e) ↦ inr (ap (λ x. x.group_id) e, ap (λ x. x.site_id) e)
        | inr (inr nothing) ↦ absurd nothing
      ]
]

pub assign_site-IsAssigned :
    (db : Places) (group at : String) (permissions : List String) (s t : State)
    → IsAssigned db s
    → assign_site db group at permissions s ≡ ok t
    → IsAssigned db t
unfolding assign_site
assign_site-IsAssigned db group at permissions s t sound h =
    let (there, k) = guard_bind (includes at db.sites) _ _ h in
    let (known, e) = guard_bind (any (is_group group) s.groups) _ _ k in
    subst (IsAssigned db) (ok_injective e) (record {
      rules = λ r n.
          let (a, e, linked) = sound.rules r n in
          (a, e, with_link-keeps group at r.scope.group_id a s.links linked);
      permissions = of_permission;
      links = λ l n. elim (with_link-Elem group at s.links l n) [
        | inl old ↦ sound.links l old
        | inr (g, a) ↦ (rw g known, rw a there)
      ];
      members = sound.members;
    })
  where
    stays : Permission → Bool
    stays p = not (is_dropped group at (unique permissions) p)

    of_permission :
        (p : Permission)
        → Elem p (add_permissions group at (unique permissions) (filter stays s.permissions))
        → IsLinked p.group_id p.site_id (with_link group at s.links)
    of_permission p m =
        elim ((add_permissions_iff group at (unique permissions) (filter stays s.permissions) p).0
          m) [
            | inl old ↦
                with_link-keeps group at p.group_id p.site_id s.links
                  (sound.permissions p (Elem-of_filter stays p s.permissions old).0)
            | inr (own, n) ↦
                let g : p.group_id ≡ group = ground (arith, eq_iff p.group_id group) in
                let a : p.site_id ≡ at = ground (arith, eq_iff p.site_id at) in
                rw g (rw a (with_link-IsLinked group at s.links))
          ]

-- Another assignment stays when one is taken away.
other_link :
    (group at g a : String) (links : List Link)
    → (g == group && a == at) ≡ false
    → IsLinked g a links
    → IsLinked g a (filter (λ l. not (is_link group at l)) links)
other_link group at g a links other =
    any-filter (is_link g a) (λ l. not (is_link group at l)) links
      (λ l h. ground (
        arith,
        eq_iff l.group_id g,
        eq_iff l.site_id a,
        eq_iff l.group_id group,
        eq_iff l.site_id at,
        eq_iff g group,
        eq_iff a at,
      ))

pub remove_site-IsAssigned :
    (db : Places) (group at : String) (s t : State)
    → IsAssigned db s
    → remove_site db group at s ≡ ok t
    → IsAssigned db t
unfolding remove_site
remove_site-IsAssigned db group at s t sound h =
    let (unused, k) = guard_bind (not (any in_use s.rules)) _ _ h in
    let (there, e) = guard_bind (any (is_link group at) s.links) _ _ k in
    subst (IsAssigned db) (ok_injective e) (record {
      rules = λ r n.
          let (a, e, linked) = sound.rules r n in
          (
            a,
            e,
            other_link group at r.scope.group_id a s.links (elsewhere r a n e (ground arith))
                linked,
          );
      permissions = λ p n.
          let (m, other) =
            Elem-of_filter (λ p. not (is_permission_of group at p)) p s.permissions n in
          other_link group at p.group_id p.site_id s.links (ground arith) (sound.permissions p m);
      links = λ l n. sound.links l (Elem-of_filter (λ l. not (is_link group at l)) l s.links n).0;
      members = sound.members;
    })
  where
    in_use : Rule → Bool
    in_use r = r.scope.group_id == group && is_in_site db at r.scope

    elsewhere :
        (r : Rule) (a : String)
        → Elem r s.rules
        → scope_site db r.scope ≡ some a
        → any in_use s.rules ≡ false
        → (r.scope.group_id == group && a == at) ≡ false
    elsewhere r a n e unused =
        let free = any-false in_use r s.rules unused n in
        let inside = scope_site-is_in_site db a r.scope e in
        elim (Bool-cases (a == at)) [
          | inr far ↦ ground arith
          | inl near ↦
              let here : is_in_site db at r.scope ≡ true =
                subst (λ x. is_in_site db x r.scope ≡ true) ((eq_iff a at).0 near) inside in
              ground arith
        ]

-- What the check of a scope finds.
validate_permission-IsLinked :
    (db : Places) (c : Scope) (s : State) (valid : Unit {0})
    → validate_permission db c s ≡ ok valid
    → (at : String) × (scope_site db c ≡ some at) × IsLinked c.group_id at s.links
unfolding validate_permission
validate_permission-IsLinked db c s valid h =
    let (at, found, k) = or_throw_bind (scope_site db c) _ _ h in (at, found, ground arith)

pub create_permission-IsAssigned :
    (db : Places) (id : String) (c : Scope) (s t : State)
    → IsAssigned db s
    → create_permission db id c s ≡ ok t
    → IsAssigned db t
unfolding create_permission
create_permission-IsAssigned db id c s t sound h =
    let (unit, valid, k) = bind-eq-ok (validate_permission db c s) _ h in
    let (fresh, e) = guard_bind (not (any (λ (r : Rule). same_scope r.scope c) s.rules)) _ _ k in
    let new : Rule = record { id = id; scope = c } in
    subst (IsAssigned db) (ok_injective e) (record {
      rules = λ r n. elim (Elem-append r s.rules (new ∷ []) n) [
        | inl old ↦ sound.rules r old
        | inr (inl own) ↦
            subst
              (λ (x : Rule).
                (at : String) × (scope_site db x.scope ≡ some at)
                × IsLinked x.scope.group_id at s.links)
              (sym own) (validate_permission-IsLinked db c s unit valid)
        | inr (inr nothing) ↦ absurd nothing
      ];
      permissions = sound.permissions;
      links = sound.links;
      members = sound.members;
    })

pub update_permission-IsAssigned :
    (db : Places) (id : String) (c : Scope) (s t : State)
    → IsAssigned db s
    → update_permission db id c s ≡ ok t
    → IsAssigned db t
unfolding update_permission
update_permission-IsAssigned db id c s t sound h =
    let (unit, valid, k) = bind-eq-ok (validate_permission db c s) _ h in
    let (there, e) =
      guard_bind
        (any (λ (r : Rule). r.id == id) s.rules
          && not (any (λ (r : Rule). same_scope r.scope c && not (r.id == id)) s.rules))
        _ _ k in
    subst (IsAssigned db) (ok_injective e) (record {
      rules = λ r n.
          let (q, m, f) = Elem-of_map change r s.rules n in
          subst
            (λ (x : Rule).
              (at : String) × (scope_site db x.scope ≡ some at)
              × IsLinked x.scope.group_id at s.links)
            (sym f) (changed q m (validate_permission-IsLinked db c s unit valid));
      permissions = sound.permissions;
      links = sound.links;
      members = sound.members;
    })
  where
    change : Rule → Rule
    change r = if r.id == id then record r { scope = c } else r

    changed :
        (q : Rule)
        → Elem q s.rules
        → (at : String) × (scope_site db c ≡ some at) × IsLinked c.group_id at s.links
        → (at : String) × (scope_site db (change q).scope ≡ some at)
          × IsLinked (change q).scope.group_id at s.links
    changed q m found = elim (Bool-cases (q.id == id)) [
      | inl own ↦ rw own found
      | inr other ↦ rw other (sound.rules q m)
    ]

pub delete_permission-IsAssigned :
    (db : Places) (id : String) (s t : State)
    → IsAssigned db s
    → delete_permission id s ≡ ok t
    → IsAssigned db t
unfolding delete_permission
delete_permission-IsAssigned db id s t sound h =
    let (there, e) = guard_bind (any (λ (r : Rule). r.id == id) s.rules) _ _ h in
    subst (IsAssigned db) (ok_injective e) (record {
      rules = λ r n. sound.rules r (Elem-of_filter (λ (r : Rule). not (r.id == id)) r s.rules n).0;
      permissions = sound.permissions;
      links = sound.links;
      members = sound.members;
    })
