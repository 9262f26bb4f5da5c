-- ===== src/Settings/AccessGroups/Tests.antt =====
-- Groups at concrete inputs.
use management_app.Base.{
  ◌≡◌, String, refl, ◌⊎◌, ◌↔◌, true, false, none, List, [], ◌∷◌, Elem, ok, err,
}
use management_app.Base.HttpError.{conflict, bad_request}
use management_app.Text.{codes, trim}
use management_app.Text.Sets.{same}
use management_app.Collections.Texts.{unique}
use management_app.Settings.AccessGroups.{
  Permission, site, room, Scope, Places, State, is_permission_of, create, assert_unique, remove,
}
use management_app.Settings.AccessGroups.Sites.{
  assign_site, remove_site, create_permission, validate_permission, scope_site,
}
use management_app.Settings.AccessGroups.Kept.{IsAssigned}
use management_app.Settings.AccessGroups.Assigned.{assign_site_iff}
use management_app.Settings.AccessGroups.Steps.{
  empty, at_start, then_step, creates, assigns, grants, Reachable-IsAssigned,
}

abbrev db : Places
db = record {
  sites = "porto" ∷ "lisboa" ∷ [];
  users = "ana" ∷ [];
  buildings = record { id = "b1"; site_id = "porto" } ∷ [];
  rooms = record { id = "r1"; building_id = "b1" } ∷ [];
  insensitive = same;
}

abbrev created : State
created = record empty {
  groups = record { id = "g1"; name = codes "Redes"; description = none } ∷ [];
  links = record { group_id = "g1"; site_id = "porto" } ∷ [];
}

abbrev can : List Permission → State
can ps = record created { permissions = ps }

abbrev reads : Permission
reads = record { group_id = "g1"; site_id = "porto"; permission = "READ" }

abbrev writes : Permission
writes = record { group_id = "g1"; site_id = "porto"; permission = "UPDATE" }

abbrev in_room : Scope
in_room = record { group_id = "g1"; scope_type = room; scope_id = "r1"; permission = "READ" }

abbrev with_rule : State
with_rule = record (can (reads ∷ [])) { rules = record { id = "p1"; scope = in_room } ∷ [] }

is_created : create db "g1" (codes " Redes") none ("porto" ∷ "porto" ∷ []) empty ≡ ok created
unfolding create assert_unique trim unique
is_created = refl

is_assigned : assign_site db "g1" "porto" ("READ" ∷ "READ" ∷ []) created ≡ ok (can (reads ∷ []))
unfolding assign_site unique
is_assigned = refl

is_replaced :
    assign_site db "g1" "porto" ("UPDATE" ∷ []) (can (reads ∷ [])) ≡ ok (can (writes ∷ []))
unfolding assign_site unique
is_replaced = refl

is_granted : create_permission db "p1" in_room (can (reads ∷ [])) ≡ ok with_rule
unfolding create_permission scope_site validate_permission
is_granted = refl

elsewhere :
    create_permission db "p1" (record in_room { scope_type = site; scope_id = "lisboa" }) created
    ≡ err (bad_request "INFRASTRUCTURE_SCOPE_SITE_MISMATCH")
unfolding create_permission scope_site validate_permission
elsewhere = refl

in_use : remove_site db "g1" "porto" with_rule ≡ err (conflict "ACCESS_GROUP_SITE_IN_USE")
unfolding remove_site
in_use = refl

not_empty : remove "g1" with_rule ≡ err (conflict "ACCESS_GROUP_IN_USE")
unfolding remove
not_empty = refl

assign_site_iff_example : Elem reads (can (writes ∷ [])).permissions ↔ (
    ((is_permission_of "g1" "porto" reads ≡ true) × Elem {A = String} "READ" ("UPDATE" ∷ []))
    ⊎ ((is_permission_of "g1" "porto" reads ≡ false) × Elem reads (can (reads ∷ [])).permissions))
assign_site_iff_example =
    assign_site_iff db "g1" "porto" ("UPDATE" ∷ []) (can (reads ∷ [])) (can (writes ∷ [])) reads
      is_replaced

Reachable-IsAssigned_example : IsAssigned db with_rule
Reachable-IsAssigned_example = Reachable-IsAssigned db with_rule (
    then_step {s = can (reads ∷ [])}
      (then_step {s = created}
        (then_step {s = empty} at_start
          (creates "g1" (codes " Redes") none ("porto" ∷ "porto" ∷ []) is_created))
        (assigns "g1" "porto" ("READ" ∷ "READ" ∷ []) is_assigned))
      (grants "p1" in_room is_granted))
