-- ===== src/Settings/AccessGroups/Steps.antt =====
-- Every state of the tables that the operations lead to.
use management_app.Base.{◌≡◌, String, Option, List, [], ok}
use management_app.Text.{Text}
use management_app.Settings.AccessGroups.{
  Scope, Places, State, create, update, remove, add_member, remove_member,
}
use management_app.Settings.AccessGroups.Sites.{
  assign_site, remove_site, create_permission, update_permission, delete_permission,
}
use management_app.Settings.AccessGroups.Kept.{
  IsAssigned, create-IsAssigned, update-IsAssigned, remove-IsAssigned, add_member-IsAssigned,
  remove_member-IsAssigned,
}
use management_app.Settings.AccessGroups.Linked.{
  assign_site-IsAssigned, remove_site-IsAssigned, create_permission-IsAssigned,
  update_permission-IsAssigned, delete_permission-IsAssigned,
}

-- A call that succeeds; one that throws changes nothing.
pub data Step (db : Places) (s t : State) : Type 0 where
  creates :
      (id : String) (name : Text) (description : Option Text) (site_ids : List String)
      → create db id name description site_ids s ≡ ok t
      → Step db s t
  updates :
      (id : String) (name : Text) (description : Option Text)
      → update db id name description s ≡ ok t
      → Step db s t
  removes : (id : String) → remove id s ≡ ok t → Step db s t
  adds_member : (group user : String) → add_member db group user s ≡ ok t → Step db s t
  removes_member : (group user : String) → remove_member group user s ≡ ok t → Step db s t
  assigns :
      (group at : String) (permissions : List String)
      → assign_site db group at permissions s ≡ ok t
      → Step db s t
  leaves : (group at : String) → remove_site db group at s ≡ ok t → Step db s t
  grants : (id : String) (c : Scope) → create_permission db id c s ≡ ok t → Step db s t
  regrants : (id : String) (c : Scope) → update_permission db id c s ≡ ok t → Step db s t
  revokes : (id : String) → delete_permission id s ≡ ok t → Step db s t

abbrev pub empty : State
empty = record { groups = []; members = []; links = []; permissions = []; rules = [] }

pub data Reachable (db : Places) : State → Type 0 where
  at_start : Reachable db empty
  then_step : {s t : State} → Reachable db s → Step db s t → Reachable db t

Step-IsAssigned : (db : Places) (s t : State) → IsAssigned db s → Step db s t → IsAssigned db t
Step-IsAssigned db s t sound (creates id name description site_ids h) =
    create-IsAssigned db id name description site_ids s t sound h
Step-IsAssigned db s t sound (updates id name description h) =
    update-IsAssigned db id name description s t sound h
Step-IsAssigned db s t sound (removes id h) = remove-IsAssigned db id s t sound h
Step-IsAssigned db s t sound (adds_member group user h) =
    add_member-IsAssigned db group user s t sound h
Step-IsAssigned db s t sound (removes_member group user h) =
    remove_member-IsAssigned db group user s t sound h
Step-IsAssigned db s t sound (assigns group at permissions h) =
    assign_site-IsAssigned db group at permissions s t sound h
Step-IsAssigned db s t sound (leaves group at h) = remove_site-IsAssigned db group at s t sound h
Step-IsAssigned db s t sound (grants id c h) = create_permission-IsAssigned db id c s t sound h
Step-IsAssigned db s t sound (regrants id c h) = update_permission-IsAssigned db id c s t sound h
Step-IsAssigned db s t sound (revokes id h) = delete_permission-IsAssigned db id s t sound h

-- As long as sites, buildings and rooms stay where they are, after any calls of the two services each
-- rule on infrastructure stands on a site that its group is assigned to, each permission belongs to an
-- assignment, and each assignment and member to a group that exists, each assignment to a site that does.
pub Reachable-IsAssigned : (db : Places) (s : State) → Reachable db s → IsAssigned db s
Reachable-IsAssigned db s at_start = record {
  rules = λ r m. absurd m;
  permissions = λ p m. absurd m;
  links = λ l m. absurd m;
  members = λ m n. absurd n;
}
Reachable-IsAssigned db s (then_step {s = r} path step) =
    Step-IsAssigned db r s (Reachable-IsAssigned db r path) step
