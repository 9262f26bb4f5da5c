-- ===== src/Infrastructure/Entities/Buildings.antt =====
-- The listing of buildings shows what `assertBuilding` admits.
use management_app.Base.{
  ◌≡◌, refl, ◌≢◌, inl, inr, ◌↔◌, arith, String, Bool, true, false, not, ◌&&◌, ◌||◌, some, List, [],
  ◌∷◌, map, ◌==◌, eq_iff, filter, find, any, Elem, Elem-map, Elem-filter, Elem-of_filter,
  Bool-cases, if◌then◌else◌, ok,
}
use management_app.Access.{User, read, admin, has_role, can_read_scoped}
use management_app.Collections.Texts.{includes, includes_iff}
use management_app.Infrastructure.Store.{site, building, Rule, BuildingRow, RoomRow, Store}
use management_app.Infrastructure.Access.{
  physical, in_scope, of_type, nearest, group_ids, allows, denied, visible_room_ids,
}
use management_app.Infrastructure.Access.Rules.{
  rules_on, building_rules_lem, filter-filter, filter_inside,
}
use management_app.Infrastructure.Access.Rooms.{
  group_ids-admin, allows-all, admin_reads, role_reads, denied_not_ok,
}
use management_app.Infrastructure.Entities.{
  buildings_of, site_and_building_rules, has_visible_child, is_visible_building, visible_buildings,
  assert_building,
}

-- The building is the one that is found by its id, which is not empty.
pub record IsStoredBuilding (db : Store) (b : BuildingRow) : Type 0 where
  pub found : find (λ (x : BuildingRow). x.id == b.id) db.buildings ≡ some b
  pub id_given : b.id ≢ ""

abbrev building_rules : Store → BuildingRow → List Rule
building_rules db b = nearest (rules_on db building b.id) (rules_on db site b.site_id)

any-filter :
    {A : Type 0} (p q : A → Bool) (xs : List A) → any p (filter q xs) ≡ any (λ x. p x && q x) xs
any-filter p q [] = refl
any-filter p q (x ∷ xs) = ground (arith, any-filter p q xs)

is_visible_building_lem :
    (db : Store) (u : User) (s : String) (b : BuildingRow)
    → Elem b (buildings_of db s)
    → is_visible_building db u s b
      ≡ (allows (building_rules db b) read (group_ids db u b.site_id) || has_visible_child db u b)
unfolding is_visible_building
is_visible_building_lem db u s b m =
    let (_, at) = Elem-of_filter (λ (x : BuildingRow). x.site_id == s) b db.buildings m in
    let same : b.site_id ≡ s = ground (arith, eq_iff b.site_id s) in
    let listed =
      (includes_iff b.id (map (λ (x : BuildingRow). x.id) (buildings_of db s))).1
        (Elem-map (λ (x : BuildingRow). x.id) b (buildings_of db s) m) in
    let own : filter (in_scope building b.id) (site_and_building_rules db s)
        ≡ rules_on db building b.id =
      filter_inside (in_scope building b.id) _
        (λ x e. ground (arith, listed, eq_iff x.scope_id b.id)) db.rules in
    let of_site : of_type site (site_and_building_rules db s) ≡ rules_on db site s =
      filter-filter _ _ (in_scope site s) (λ x. ground arith) db.rules in
    rw (own, of_site, same)
      (rw
        (any-filter (λ (r : RoomRow). includes r.id (visible_room_ids db u (some s)))
          (λ r. r.building_id == b.id) db.rooms)
        refl)

assert_building_read :
    (db : Store) (u : User) (b : BuildingRow)
    → IsStoredBuilding db b
    → (assert_building db u read b.id physical ≡ ok b) ↔ (
        (can_read_scoped u
          && (allows (building_rules db b) read (group_ids db u b.site_id)
              || has_visible_child db u b))
        ≡ true)
unfolding assert_building
assert_building_read db u b h = rw (h.found) (
    rw (building_rules_lem db b.site_id b.id h.id_given, role_reads u physical)
      (cases (can_read_scoped u) (allows (building_rules db b) read (group_ids db u b.site_id))
        (has_visible_child db u b)))
  where
    cases :
        (may direct child : Bool)
        → ((if may && direct
              then ok b
              else if (direct || child) && true && may
              then ok b
              else if not (direct || child)
              then denied read
              else denied read)
            ≡ ok b)
          ↔ ((may && (direct || child)) ≡ true)
    cases true true child = ((λ _. refl), (λ _. refl))
    cases true false true = ((λ _. refl), (λ _. refl))
    cases true false false = ((λ e. absurd (denied_not_ok read b e)), (λ e. absurd (cc)))
    cases false true child = ((λ e. absurd (denied_not_ok read b e)), (λ e. absurd (cc)))
    cases false false true = ((λ e. absurd (denied_not_ok read b e)), (λ e. absurd (cc)))
    cases false false false = ((λ e. absurd (denied_not_ok read b e)), (λ e. absurd (cc)))

-- The listing of the buildings of a site shows a building exactly when `assertBuilding` admits
-- reading it: by the rules on it, or for a room in it that is visible.
pub visible_buildings_iff :
    (db : Store) (u : User) (s : String) (b : BuildingRow)
    → Elem b (buildings_of db s)
    → IsStoredBuilding db b
    → Elem b (visible_buildings db u s) ↔ (assert_building db u read b.id physical ≡ ok b)
unfolding visible_buildings
visible_buildings_iff db u s b m h = elim (Bool-cases (has_role u admin)) [
  | inl boss ↦ rw boss (
    (λ _. (assert_building_read db u b h).1 (
        ground (
          arith,
          admin_reads u boss,
          group_ids-admin db u b.site_id boss,
          allows-all (building_rules db b) read,
        ))),
    (λ _. m),
  )
  | inr plain ↦ elim (Bool-cases (can_read_scoped u)) [
    | inl member ↦
        let seen = is_visible_building_lem db u s b m in
        rw (plain, member)
          (
            (λ k.
                (assert_building_read db u b h).1
                  (ground (arith, member, seen, (Elem-of_filter _ b (buildings_of db s) k).1))),
            (λ e.
                let t = (assert_building_read db u b h).0 e in
                Elem-filter _ b (buildings_of db s) m (ground (arith, seen, t))),
          )
    | inr stranger ↦
        rw (plain, stranger)
          ((λ k. absurd k), (λ e. absurd (ground (arith, (assert_building_read db u b h).0 e))))
  ]
]
