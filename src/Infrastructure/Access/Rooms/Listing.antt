-- ===== src/Infrastructure/Access/Rooms/Listing.antt =====
-- The listing of rooms, and what a refusal gives away.
use management_app.Base.{
  ◌≡◌, refl, ◌∙◌, ◌⊎◌, inl, inr, ◌↔◌, arith, String, Bool, true, false, ◌&&◌, Option, some, List,
  map, Elem, Elem-map, Elem-filter, Elem-of_filter, Bool-cases, ok, err,
}
use management_app.Base.HttpError.{not_found, forbidden}
use management_app.Access.{User, ScopedAction, read, admin, has_role, can_read_scoped}
use management_app.Collections.Texts.{includes, includes_iff, unique, Elem-unique}
use management_app.Infrastructure.Store.{site, building, room, RoomRow, Store}
use management_app.Infrastructure.Access.{
  Kind, physical, group_ids, allows, denied, role_allows, rooms_of, memberships_in, rules_in,
  site_ids_of, building_ids_of, room_ids_of, is_visible, visible_rooms, assert_room,
}
use management_app.Infrastructure.Access.Rules.{listed_rules, groups_on, listed_groups}
use management_app.Infrastructure.Access.Rooms.{
  IsStored, room_rules, assert_room_lem, group_ids-admin, group_ids-member, allows-all, admin_reads,
  passes_iff, role_reads, readers_have_role,
}

includes-unique-map :
    (f : RoomRow → String) (r : RoomRow) (rooms : List RoomRow)
    → Elem r rooms
    → includes (f r) (unique (map f rooms)) ≡ true
includes-unique-map f r rooms m =
    (includes_iff (f r) (unique (map f rooms))).1
      ((Elem-unique (f r) (map f rooms)).1 (Elem-map f r rooms m))

-- What the listing tests for one of the listed rooms is what `assertRoom` tests.
is_visible_lem :
    (db : Store) (u : User) (rooms : List RoomRow) (r : RoomRow)
    → Elem r rooms
    → is_visible
        (site_ids_of rooms)
        (memberships_in db u (site_ids_of rooms))
        (rules_in db (site_ids_of rooms) (building_ids_of rooms) (room_ids_of rooms))
        r
      ≡ allows (room_rules db r) read (some (groups_on db u r.site_id))
unfolding is_visible
is_visible_lem db u rooms r m =
    let s = includes-unique-map (λ (x : RoomRow). x.site_id) r rooms m in
    let b = includes-unique-map (λ (x : RoomRow). x.building_id) r rooms m in
    let o =
      (includes_iff r.id (room_ids_of rooms)).1 (Elem-map (λ (x : RoomRow). x.id) r rooms m) in
    rw
      (
        listed_groups db u (site_ids_of rooms) r.site_id s,
        listed_rules db rooms room r.id o,
        listed_rules db rooms building r.building_id b,
        listed_rules db rooms site r.site_id s,
      )
      refl

-- The listing of rooms, of one site or of all, shows a room exactly when `assertRoom` admits reading
-- it.
pub visible_rooms_iff :
    (db : Store) (u : User) (site_id : Option String) (r : RoomRow)
    → Elem r (rooms_of db site_id)
    → IsStored db r
    → Elem r (visible_rooms db u site_id) ↔ (assert_room db u read r.id physical ≡ ok r)
unfolding visible_rooms
visible_rooms_iff db u site_id r m h = elim (Bool-cases (has_role u admin)) [
  | inl boss ↦ rw boss (
    (λ _. (passes_iff db u read r physical h).1 (
        ground (
          arith,
          role_reads u physical,
          admin_reads u boss,
          group_ids-admin db u r.site_id boss,
          allows-all (room_rules db r) read,
        ))),
    (λ _. m),
  )
  | inr plain ↦ elim (Bool-cases (can_read_scoped u)) [
    | inl member ↦
        let rooms = rooms_of db site_id in
        let seen = is_visible_lem db u rooms r m in
        let groups = group_ids-member db u r.site_id plain member in
        rw (plain, member)
          (
            (λ k.
                let visible = (Elem-of_filter _ r rooms k).1 in
                (passes_iff db u read r physical h).1
                  (ground (arith, role_reads u physical, member, groups, seen, visible))),
            (λ e.
                let t = (passes_iff db u read r physical h).0 e in
                let allowed : allows (room_rules db r) read (group_ids db u r.site_id) ≡ true =
                  ground (arith, t) in
                Elem-filter _ r rooms m (seen ∙ rw groups at allowed)),
          )
    | inr stranger ↦
        rw (plain, stranger)
          (
            (λ k. absurd k),
            (λ e.
                let t = (passes_iff db u read r physical h).0 e in
                absurd (ground (arith, t, role_reads u physical))),
          )
  ]
]

denied_cases :
    {A : Type 0} (a : ScopedAction)
    → (a ≡ read) ⊎ (denied {A = A} a ≡ err (forbidden "INFRASTRUCTURE_SCOPE_FORBIDDEN"))
unfolding denied
denied_cases read = inl refl
denied_cases _ = inr refl

denied_read :
    {A : Type 0} → denied {A = A} read ≡ err (not_found "INFRASTRUCTURE_RESOURCE_NOT_FOUND")
unfolding denied
denied_read = refl

-- A refusal "forbidden" is answered only for a room that the user may read, and "not found" only
-- for one that he may not.
pub assert_room_refusal :
    (db : Store) (u : User) (a : ScopedAction) (r : RoomRow) (k : Kind)
    → IsStored db r
    → (assert_room db u a r.id k ≡ ok r)
      ⊎ ((assert_room db u a r.id k ≡ err (forbidden "INFRASTRUCTURE_SCOPE_FORBIDDEN"))
          × (assert_room db u read r.id physical ≡ ok r))
      ⊎ ((assert_room db u a r.id k ≡ err (not_found "INFRASTRUCTURE_RESOURCE_NOT_FOUND"))
          × (assert_room db u read r.id physical
              ≡ err (not_found "INFRASTRUCTURE_RESOURCE_NOT_FOUND")))
assert_room_refusal db u a r k h = elim (Bool-cases (passes a k)) [
  | inl pass ↦ inl ((passes_iff db u a r k h).1 pass)
  | inr fail ↦ elim (Bool-cases (allows (room_rules db r) read (group_ids db u r.site_id))) [
    | inl seen ↦ elim (denied_cases a) [
      | inl is_read ↦ absurd (ground (arith, is_read, seen, reads seen k))
      | inr is_denied ↦ inr (
          inl (
            rw (assert_room_lem db u a r k h, fail, seen) is_denied,
            (passes_iff db u read r physical h).1 (ground (arith, reads seen physical)),
          ))
    ]
    | inr hidden ↦
        let fails : passes read physical ≡ false = ground (arith, hidden) in
        inr (
          inr (
            rw (assert_room_lem db u a r k h, fail, hidden) denied_read,
            rw (assert_room_lem db u read r physical h, fails, hidden) denied_read,
          ))
  ]
]
  where
    passes : ScopedAction → Kind → Bool
    passes a k = role_allows u a k && allows (room_rules db r) a (group_ids db u r.site_id)

    reads :
        allows (room_rules db r) read (group_ids db u r.site_id) ≡ true
        → (k : Kind) → role_allows u read k ≡ true
    reads seen k = role_reads u k ∙ readers_have_role db u (room_rules db r) r.site_id seen
