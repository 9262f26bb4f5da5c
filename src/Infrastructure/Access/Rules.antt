-- ===== src/Infrastructure/Access/Rules.antt =====
-- The two ways in which the service collects rules and groups agree: one query for one room, and
-- three queries for many rooms that are filtered afterwards.
use management_app.Base.{
  ◌≡◌, refl, ap, ◌≢◌, inl, inr, arith, String, Bool, true, false, ◌&&◌, ◌||◌, none, some, List, [],
  ◌∷◌, map, ◌==◌, eq_iff, filter, any, Bool-cases,
}
use management_app.Access.{User}
use management_app.Collections.Texts.{includes}
use management_app.Infrastructure.Store.{
  ScopeType, site, building, room, Rule, Membership, RoomRow, Store,
}
use management_app.Infrastructure.Access.{
  in_scope, nearest, of_type, site_rules, effective_rules, memberships_in, groups_by_site, rules_in,
  site_ids_of, building_ids_of, room_ids_of,
}

module _ {A : Type 0} where
  pub filter-filter :
      (p q r : A → Bool)
      → ((x : A) → (q x && p x) ≡ r x)
      → (xs : List A) → filter p (filter q xs) ≡ filter r xs
  filter-filter p q r h [] = refl
  filter-filter p q r h (x ∷ xs) = ground (arith, h x, filter-filter p q r h xs)

  pub filter_inside :
      (p q : A → Bool)
      → ((x : A) → p x ≡ true → q x ≡ true)
      → (xs : List A) → filter p (filter q xs) ≡ filter p xs
  filter_inside p q h = filter-filter p q p (λ x. ground (arith, h x))

-- All rules on one scope.
abbrev pub rules_on : Store → ScopeType → String → List Rule
rules_on db type id = filter (in_scope type id) db.rules

pub site_rules_lem : (db : Store) (s : String) → site_rules db s ≡ rules_on db site s
unfolding site_rules
site_rules_lem db s = filter-filter _ _ (in_scope site s) (λ r. ground arith) db.rules

-- The `OR` of the query for one room.
abbrev asked : String → String → String → Rule → Bool
asked s b r x = in_scope site s x || (in_scope building b x || in_scope room r x)

asked_room :
    (s b r : String) (xs : List Rule)
    → of_type room (filter (asked s b r) xs) ≡ filter (in_scope room r) xs
asked_room s b r = filter-filter _ (asked s b r) (in_scope room r) (λ x. ground arith)

asked_building :
    (s b r : String) (xs : List Rule)
    → of_type building (filter (asked s b r) xs) ≡ filter (in_scope building b) xs
asked_building s b r = filter-filter _ (asked s b r) (in_scope building b) (λ x. ground arith)

asked_site :
    (s b r : String) (xs : List Rule)
    → of_type site (filter (asked s b r) xs) ≡ filter (in_scope site s) xs
asked_site s b r = filter-filter _ (asked s b r) (in_scope site s) (λ x. ground arith)

-- The rules that decide on a room: its own, else those of its building, else those of the site.
pub room_rules_lem :
    (db : Store) (s b r : String)
    → b ≢ ""
    → r ≢ ""
    → effective_rules db s (some b) (some r)
      ≡ nearest (rules_on db room r) (nearest (rules_on db building b) (rules_on db site s))
unfolding effective_rules
room_rules_lem db s b r hb hr =
    let given_b : (b == "") ≡ false = ground (arith, eq_iff b "") in
    let given_r : (r == "") ≡ false = ground (arith, eq_iff r "") in
    rw (given_b, given_r)
      (rw (asked_room s b r db.rules, asked_building s b r db.rules, asked_site s b r db.rules)
        refl)

pub building_rules_lem :
    (db : Store) (s b : String)
    → b ≢ ""
    → effective_rules db s (some b) none ≡ nearest (rules_on db building b) (rules_on db site s)
unfolding effective_rules
building_rules_lem db s b hb =
    let given_b : (b == "") ≡ false = ground (arith, eq_iff b "") in
    rw given_b (rw (of_building db.rules, of_site db.rules) refl)
  where
    of_building :
        (xs : List Rule)
        → of_type building (filter (λ x. in_scope site s x || (in_scope building b x || false)) xs)
          ≡ filter (in_scope building b) xs
    of_building = filter-filter _ _ (in_scope building b) (λ x. ground arith)

    of_site :
        (xs : List Rule)
        → of_type site (filter (λ x. in_scope site s x || (in_scope building b x || false)) xs)
          ≡ filter (in_scope site s) xs
    of_site = filter-filter _ _ (in_scope site s) (λ x. ground arith)

-- The ids of the listed scopes of a type.
abbrev pub listed_ids : ScopeType → List RoomRow → List String
listed_ids site rooms = site_ids_of rooms
listed_ids building rooms = building_ids_of rooms
listed_ids room rooms = room_ids_of rooms

-- The rules of one listed scope among those of all listed scopes.
pub listed_rules :
    (db : Store) (rooms : List RoomRow) (type : ScopeType) (id : String)
    → includes id (listed_ids type rooms) ≡ true
    → filter
        (in_scope type id)
        (rules_in db (site_ids_of rooms) (building_ids_of rooms) (room_ids_of rooms))
      ≡ rules_on db type id
listed_rules db rooms site id h =
    filter_inside (in_scope site id) _ (λ x e. ground (arith, h, eq_iff x.scope_id id)) db.rules
listed_rules db rooms building id h =
    filter_inside (in_scope building id) _ (λ x e. ground (arith, h, eq_iff x.scope_id id)) db.rules
listed_rules db rooms room id h =
    filter_inside (in_scope room id) _ (λ x e. ground (arith, h, eq_iff x.scope_id id)) db.rules

-- The groups of a user that are assigned to a site.
abbrev pub groups_on : Store → User → String → List String
groups_on db user s =
    map (λ (m : Membership). m.group_id)
      (filter (λ (m : Membership). includes s m.site_ids) (db.memberships user.id))

any_listed :
    (s : String) (listed ids : List String)
    → includes s listed ≡ true
    → includes s ids ≡ true
    → any (λ x. includes x listed) ids ≡ true
any_listed s listed [] h m = absurd (cc)
any_listed s listed (x ∷ ids) h m = ground (arith, eq_iff x s, any_listed s listed ids h)

includes-filter :
    (s : String) (listed ids : List String)
    → includes s listed ≡ true
    → includes s (filter (λ x. includes x listed) ids) ≡ includes s ids
includes-filter s listed [] h = refl
includes-filter s listed (x ∷ ids) h = ground (arith, eq_iff x s, includes-filter s listed ids h)

pub listed_groups :
    (db : Store) (user : User) (listed : List String) (s : String)
    → includes s listed ≡ true
    → groups_by_site listed (memberships_in db user listed) s ≡ groups_on db user s
listed_groups db user listed s h = rw h (same (db.memberships user.id))
  where
    same :
        (ms : List Membership)
        → map
            (λ (m : Membership). m.group_id)
            (filter
              (λ (m : Membership). any (λ x. x == s) m.site_ids)
              (map
                (λ (m : Membership). record m {
                  site_ids = filter (λ x. includes x listed) m.site_ids;
                })
                (filter (λ (m : Membership). any (λ x. includes x listed) m.site_ids) ms)))
          ≡ map
              (λ (m : Membership). m.group_id)
              (filter (λ (m : Membership). includes s m.site_ids) ms)
    same [] = refl
    same (m ∷ ms) = elim (Bool-cases (includes s m.site_ids)) [
      | inl inside ↦
          let one = any_listed s listed m.site_ids h inside in
          let two = includes-filter s listed m.site_ids h in
          rw (inside, one) (rw (two, inside) (ap (λ gs. m.group_id ∷ gs) (same ms)))
      | inr outside ↦ elim (Bool-cases (any (λ x. includes x listed) m.site_ids)) [
        | inl one ↦
            let two = includes-filter s listed m.site_ids h in
            rw (outside, one) (rw (two, outside) (same ms))
        | inr none_there ↦ rw (outside, none_there) (same ms)
      ]
    ]
