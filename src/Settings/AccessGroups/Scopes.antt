-- ===== src/Settings/AccessGroups/Scopes.antt =====
-- The two ways in which a scope belongs to a site agree.
use management_app.Base.{
  ◌≡◌, sym, inl, inr, arith, String, true, some, filter, find, ◌==◌, eq_iff, Elem-of_find,
  Elem-filter, Elem-map, Option-cases,
}
use mathlib.Core.Path.{subst}
use management_app.Collections.Texts.{includes, includes_iff}
use management_app.Settings.AccessGroups.{
  Scope, ScopeType, site, building, room, Building, Room, Places,
}
use management_app.Settings.AccessGroups.Sites.{
  building_ids, room_ids, is_in_site, building_site, scope_site,
}

building_site-includes :
    (db : Places) (id at : String)
    → building_site db id ≡ some at
    → includes id (building_ids db at) ≡ true
building_site-includes db id at h =
    elim (Option-cases (find (λ (b : Building). b.id == id) db.buildings)) [
      | inl nothing ↦ absurd (ground arith)
      | inr (b, e) ↦
          let (m, t) = Elem-of_find (λ (b : Building). b.id == id) b db.buildings e in
          let same_id : b.id ≡ id = (eq_iff b.id id).0 t in
          let same_site : b.site_id ≡ at = ground arith in
          let n =
            Elem-filter (λ (b : Building). b.site_id == at) b db.buildings m
              ((eq_iff b.site_id at).1 same_site) in
          subst (λ i. includes i (building_ids db at) ≡ true) same_id
            ((includes_iff b.id (building_ids db at)).1 (
              Elem-map (λ (b : Building). b.id) b
                (filter (λ (b : Building). b.site_id == at) db.buildings) n))
    ]

by_type :
    (db : Places) (at group : String) (t : ScopeType) (id permission : String)
    → scope_site db
        (record { group_id = group; scope_type = t; scope_id = id; permission = permission })
      ≡ some at
    → is_in_site db at
        (record { group_id = group; scope_type = t; scope_id = id; permission = permission })
      ≡ true
unfolding scope_site
by_type db at group site id permission h =
    let (m, t) = Elem-of_find (λ x. x == id) at db.sites h in
    (eq_iff id at).1 (sym ((eq_iff at id).0 t))
by_type db at group building id permission h = building_site-includes db id at h
by_type db at group room id permission h =
    elim (Option-cases (find (λ (r : Room). r.id == id) db.rooms)) [
      | inl nothing ↦ absurd (ground arith)
      | inr (r, e) ↦
          let (m, t) = Elem-of_find (λ (r : Room). r.id == id) r db.rooms e in
          let k : building_site db r.building_id ≡ some at = ground arith in
          let inside = building_site-includes db r.building_id at k in
          let n =
            Elem-filter (λ (r : Room). includes r.building_id (building_ids db at)) r db.rooms m
              inside in
          subst (λ i. includes i (room_ids db at) ≡ true) ((eq_iff r.id id).0 t)
            ((includes_iff r.id (room_ids db at)).1 (
              Elem-map (λ (r : Room). r.id) r
                (filter (λ (r : Room). includes r.building_id (building_ids db at)) db.rooms) n))
    ]

-- A scope of a site is one that keeps its group from being taken off the site.
pub scope_site-is_in_site :
    (db : Places) (at : String) (c : Scope) → scope_site db c ≡ some at → is_in_site db at c ≡ true
scope_site-is_in_site db at c = by_type db at c.group_id c.scope_type c.scope_id c.permission
