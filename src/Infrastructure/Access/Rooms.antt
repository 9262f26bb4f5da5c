-- ===== src/Infrastructure/Access/Rooms.antt =====
-- What `assertRoom` answers, and that the listing of rooms shows what it admits.
pub mod Listing
use management_app.Base.{
  ◌≡◌, refl, sym, ap, ◌∙◌, ◌≢◌, ◌⊎◌, inl, inr, ◌↔◌, arith, String, Bool, true, false, not, ◌&&◌,
  ◌||◌, Option, none, some, List, [], ◌∷◌, map, ◌==◌, eq_iff, filter, find, any, Elem, Elem-map,
  Elem-filter, Elem-of_filter, Elem-of_any, any-Elem, Bool-cases, if◌then◌else◌, Result, ok, err,
}
use management_app.Base.HttpError.{HttpError, not_found, forbidden}
use management_app.Access.{
  User, ScopedAction, read, create, update, delete, admin, has_role, has_application_role,
  can_read_scoped, can_manage_physical, can_manage_device, is_admin,
}
use management_app.Access.Laws.{
  any_never, can_read_scoped_lem, has_application_role_lem, can_manage_physical-read,
  can_manage_physical_reads, can_manage_device_reads, can_manage_device-read,
}
use management_app.Collections.Texts.{includes, includes_iff, Elem-unique}
use management_app.Infrastructure.Store.{
  ScopeType, site, building, room, Rule, Membership, RoomRow, Store,
}
use management_app.Infrastructure.Access.{
  Kind, physical, device, action_eq, candidates, group_ids, allows, denied, nearest,
  effective_rules, role_allows, rooms_of, memberships_in, rules_in, site_ids_of, building_ids_of,
  room_ids_of, is_visible, visible_rooms, assert_room,
}
use management_app.Infrastructure.Access.Rules.{
  rules_on, room_rules_lem, listed_rules, groups_on, listed_groups,
}

-- The room is the one that is found by its id, and its ids are not empty, as for every row that the
-- database has made.
pub record IsStored (db : Store) (r : RoomRow) : Type 0 where
  pub found : find (λ (x : RoomRow). x.id == r.id) db.rooms ≡ some r
  pub id_given : r.id ≢ ""
  pub building_given : r.building_id ≢ ""

-- The rules that decide on a room: its own, else those of its building, else those of its site.
abbrev pub room_rules : Store → RoomRow → List Rule
room_rules db r =
    nearest (rules_on db room r.id)
      (nearest (rules_on db building r.building_id) (rules_on db site r.site_id))

pub assert_room_lem :
    (db : Store) (u : User) (a : ScopedAction) (r : RoomRow) (k : Kind)
    → IsStored db r
    → assert_room db u a r.id k ≡ (
        if role_allows u a k && allows (room_rules db r) a (group_ids db u r.site_id)
        then ok r
        else if not (allows (room_rules db r) read (group_ids db u r.site_id))
        then denied read
        else denied a)
unfolding assert_room
assert_room_lem db u a r k h =
    rw (h.found)
      (rw (room_rules_lem db r.site_id r.building_id r.id h.building_given h.id_given) refl)

pub group_ids-admin :
    (db : Store) (u : User) (s : String) → has_role u admin ≡ true → group_ids db u s ≡ none
unfolding group_ids
group_ids-admin db u s h = rw h refl

pub group_ids-member :
    (db : Store) (u : User) (s : String)
    → has_role u admin ≡ false
    → can_read_scoped u ≡ true
    → group_ids db u s ≡ some (groups_on db u s)
unfolding group_ids
group_ids-member db u s h m =
    let role : has_application_role u ≡ true =
      ground (arith, can_read_scoped_lem u, has_application_role_lem u) in
    rw (h, role) refl

pub group_ids-stranger :
    (db : Store) (u : User) (s : String)
    → has_role u admin ≡ false
    → can_read_scoped u ≡ false
    → group_ids db u s ≡ some []
unfolding group_ids
group_ids-stranger db u s h m =
    let role : has_application_role u ≡ false =
      ground (arith, can_read_scoped_lem u, has_application_role_lem u) in
    rw (h, role) refl

pub allows-nobody : (rules : List Rule) (a : ScopedAction) → allows rules a (some []) ≡ false
unfolding allows
allows-nobody rules a = any_never (candidates rules a)

pub admin_reads : (u : User) → has_role u admin ≡ true → can_read_scoped u ≡ true
admin_reads u h = ground (arith, can_read_scoped_lem u)

pub role_reads : (u : User) (k : Kind) → role_allows u read k ≡ can_read_scoped u
unfolding role_allows
role_reads u physical = can_manage_physical_reads u
role_reads u (device t) = can_manage_device_reads u t

-- Whoever has rules to read has a role that reads.
pub readers_have_role :
    (db : Store) (u : User) (rules : List Rule) (s : String)
    → allows rules read (group_ids db u s) ≡ true
    → can_read_scoped u ≡ true
readers_have_role db u rules s h = elim (Bool-cases (can_read_scoped u)) [
  | inl reads ↦ reads
  | inr stranger ↦ elim (Bool-cases (has_role u admin)) [
    | inl boss ↦ admin_reads u boss
    | inr plain ↦
        absurd (ground (arith, group_ids-stranger db u s plain stranger, allows-nobody rules read))
  ]
]

pub role_allows-read :
    (u : User) (a : ScopedAction) (k : Kind) → role_allows u a k ≡ true → can_read_scoped u ≡ true
unfolding role_allows
role_allows-read u a physical h = can_manage_physical-read u a h
role_allows-read u a (device t) h = can_manage_device-read u a t h

-- The user holds, through a group of the site, the permission for the action on the scope that
-- decides; any permission there is one to read.
abbrev pub HasPermission : Store → User → ScopedAction → RoomRow → Type 0
HasPermission db u a r =
    (rule : Rule) × Elem rule (room_rules db r)
    × ((a ≡ read) ⊎ (rule.permission ≡ a))
    × Elem rule.group_id (groups_on db u r.site_id)

action_eq_iff : (a b : ScopedAction) → (action_eq a b ≡ true) ↔ (a ≡ b)
action_eq_iff a b = ground arith

allows_iff :
    (rules : List Rule) (a : ScopedAction) (groups : List String)
    → (allows rules a (some groups) ≡ true) ↔ (
        (rule : Rule) × Elem rule rules
        × ((a ≡ read) ⊎ (rule.permission ≡ a))
        × Elem rule.group_id groups)
unfolding allows
allows_iff rules a groups = (to, from)
  where
    test : Rule → Bool
    test r = action_eq a read || action_eq r.permission a

    to :
        any (λ (r : Rule). includes r.group_id groups) (candidates rules a) ≡ true
        → (rule : Rule) × Elem rule rules
          × ((a ≡ read) ⊎ (rule.permission ≡ a))
          × Elem rule.group_id groups
    to h =
        let (rule, m, e) =
          Elem-of_any (λ (r : Rule). includes r.group_id groups) (candidates rules a) h in
        let (k, t) =
          Elem-of_filter (λ (r : Rule). action_eq a read || action_eq r.permission a) rule rules
            m in
        (
          rule,
          k,
          ground (arith, action_eq_iff a read, action_eq_iff rule.permission a),
          (includes_iff rule.group_id groups).0 e,
        )

    from :
        ((rule : Rule) × Elem rule rules
          × ((a ≡ read) ⊎ (rule.permission ≡ a))
          × Elem rule.group_id groups)
        → any (λ (r : Rule). includes r.group_id groups) (candidates rules a) ≡ true
    from (rule, k, t, g) =
        any-Elem (λ (r : Rule). includes r.group_id groups) rule (candidates rules a)
          (Elem-filter (λ (r : Rule). action_eq a read || action_eq r.permission a) rule rules k
            (ground (arith, action_eq_iff a read, action_eq_iff rule.permission a)))
          ((includes_iff rule.group_id groups).1 g)

pub allows-all : (rules : List Rule) (a : ScopedAction) → allows rules a none ≡ true
unfolding allows
allows-all rules a = refl

pub denied_not_ok : {A : Type 0} (a : ScopedAction) (x : A) → denied a ≡ ok x → ⊥
unfolding denied
denied_not_ok read x h = cc
denied_not_ok _ x h = cc

-- The two tests of `assertRoom`.
pub passes_iff :
    (db : Store) (u : User) (a : ScopedAction) (r : RoomRow) (k : Kind)
    → IsStored db r
    → (assert_room db u a r.id k ≡ ok r)
      ↔ ((role_allows u a k && allows (room_rules db r) a (group_ids db u r.site_id)) ≡ true)
passes_iff db u a r k h =
    elim (Bool-cases (role_allows u a k && allows (room_rules db r) a (group_ids db u r.site_id))) [
      | inl pass ↦ rw (assert_room_lem db u a r k h, pass) ((λ _. refl), (λ _. refl))
      | inr fail ↦ elim (Bool-cases (allows (room_rules db r) read (group_ids db u r.site_id))) [
        | inl seen ↦
            rw (assert_room_lem db u a r k h, fail, seen)
              ((λ e. absurd (denied_not_ok a r e)), (λ e. absurd (cc)))
        | inr hidden ↦
            rw (assert_room_lem db u a r k h, fail, hidden)
              ((λ e. absurd (denied_not_ok read r e)), (λ e. absurd (cc)))
      ]
    ]

-- `assertRoom` passes exactly for a user whose role allows the action and who is an administrator
-- or holds the permission on the nearest scope that has rules: the room, else its building, else
-- its site.
pub assert_room_iff :
    (db : Store) (u : User) (a : ScopedAction) (r : RoomRow) (k : Kind)
    → IsStored db r
    → (assert_room db u a r.id k ≡ ok r)
      ↔ ((role_allows u a k ≡ true) × ((has_role u admin ≡ true) ⊎ HasPermission db u a r))
assert_room_iff db u a r k h = elim (Bool-cases (has_role u admin)) [
  | inl boss ↦ ground (
    arith,
    passes_iff db u a r k h,
    group_ids-admin db u r.site_id boss,
    allows-all (room_rules db r) a,
  )
  | inr plain ↦ elim (Bool-cases (can_read_scoped u)) [
    | inl member ↦
        let groups = group_ids-member db u r.site_id plain member in
        let pass = passes_iff db u a r k h in
        let holds = allows_iff (room_rules db r) a (groups_on db u r.site_id) in
        (
          (λ e.
              let t = pass.0 e in
              let allowed : allows (room_rules db r) a (group_ids db u r.site_id) ≡ true =
                ground (arith, t) in
              (ground (arith, t), inr (holds.0 (rw groups at allowed)))),
          (λ m. elim (m.1) [
            | inl boss ↦ absurd (ground (arith, boss))
            | inr permission ↦
                let allowed : allows (room_rules db r) a (group_ids db u r.site_id) ≡ true =
                  rw groups (holds.1 permission) in
                pass.1 (ground (arith, m.0, allowed))
          ]),
        )
    | inr stranger ↦ (
      (λ e.
          let t = (passes_iff db u a r k h).0 e in
          absurd (ground (arith, t, role_allows-read u a k))),
      (λ m. absurd (ground (arith, m.0, role_allows-read u a k))),
    )
  ]
]
