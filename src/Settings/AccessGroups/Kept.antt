-- ===== src/Settings/AccessGroups/Kept.antt =====
-- What every operation keeps of the tables.
use management_app.Base.{
  ◌≡◌, refl, sym, ◌⊎◌, inl, inr, arith, String, Bool, true, false, not, ◌&&◌, Option, none, some,
  List, [], ◌∷◌, ◌++◌, map, filter, any, all, ◌==◌, eq_iff, Elem, Elem-append, Elem-of_filter,
  Elem-of_map, Bool-cases, if◌then◌else◌, Result, ok, guard_bind, bind-eq-ok,
}
use mathlib.Core.Path.{subst}
use management_app.Base.HttpError.{HttpError}
use management_app.Text.{Text, trim}
use management_app.Collections.Texts.{includes, unique}
use management_app.Settings.AccessGroups.{
  Group, Member, Link, Permission, Rule, Places, State, is_group, is_link, is_member, assert_unique,
  has_name, trimmed, described, create, update, remove, add_member, remove_member,
}
use management_app.Settings.AccessGroups.Sites.{scope_site}

pub any-append_left :
    {A : Type 0} (p : A → Bool) (xs ys : List A) → any p xs ≡ true → any p (xs ++ ys) ≡ true
any-append_left p [] ys h = absurd (cc)
any-append_left p (x ∷ xs) ys h = ground (arith, any-append_left p xs ys)

pub any-append_right :
    {A : Type 0} (p : A → Bool) (xs ys : List A) → any p ys ≡ true → any p (xs ++ ys) ≡ true
any-append_right p [] ys h = h
any-append_right p (x ∷ xs) ys h = ground (arith, any-append_right p xs ys h)

pub any-filter :
    {A : Type 0} (p q : A → Bool) (xs : List A)
    → ((x : A) → p x ≡ true → q x ≡ true)
    → any p xs ≡ true
    → any p (filter q xs) ≡ true
any-filter p q [] k h = absurd (cc)
any-filter p q (x ∷ xs) k h = ground (arith, k x, any-filter p q xs k)

pub any-map :
    {A : Type 0} (p : A → Bool) (f : A → A) (xs : List A)
    → ((x : A) → p x ≡ true → p (f x) ≡ true)
    → any p xs ≡ true
    → any p (map f xs) ≡ true
any-map p f [] k h = absurd (cc)
any-map p f (x ∷ xs) k h = ground (arith, k x, any-map p f xs k)

all-Elem :
    {A : Type 0} (p : A → Bool) (a : A) (xs : List A) → all p xs ≡ true → Elem a xs → p a ≡ true
all-Elem p a [] h m = absurd m
all-Elem p a (x ∷ xs) h (inl e) = rw e (ground arith)
all-Elem p a (x ∷ xs) h (inr m) = all-Elem p a xs (ground arith) m

-- The group is assigned to the site.
abbrev pub IsLinked : String → String → List Link → Type 0
IsLinked group at links = any (is_link group at) links ≡ true

-- A rule stands on a site that its group is assigned to, so does a permission; a group that is assigned
-- or has a member exists, and the site does.
pub record IsAssigned (db : Places) (s : State) : Type 0 where
  pub rules :
      (r : Rule)
      → Elem r s.rules
      → (at : String) × (scope_site db r.scope ≡ some at) × IsLinked r.scope.group_id at s.links
  pub permissions : (p : Permission) → Elem p s.permissions → IsLinked p.group_id p.site_id s.links
  pub links :
      (l : Link)
      → Elem l s.links
      → (any (is_group l.group_id) s.groups ≡ true) × (includes l.site_id db.sites ≡ true)
  pub members : (m : Member) → Elem m s.members → any (is_group m.group_id) s.groups ≡ true

pub ok_injective : {A : Type 0} {a b : A} → ◌≡◌ {A = Result HttpError A} (ok a) (ok b) → a ≡ b
ok_injective h = cc

pub add_member-IsAssigned :
    (db : Places) (group user : String) (s t : State)
    → IsAssigned db s
    → add_member db group user s ≡ ok t
    → IsAssigned db t
unfolding add_member
add_member-IsAssigned db group user s t sound h =
    let (there, e) = guard_bind (any (is_group group) s.groups && includes user db.users) _ _ h in
    subst (IsAssigned db) (ok_injective e) (record {
      rules = sound.rules;
      permissions = sound.permissions;
      links = sound.links;
      members = grows (ground arith) (Bool-cases (any (is_member group user) s.members));
    })
  where
    new : Member
    new = record { group_id = group; user_id = user }

    grows :
        any (is_group group) s.groups ≡ true
        → (any (is_member group user) s.members ≡ true)
          ⊎ (any (is_member group user) s.members ≡ false)
        → (m : Member)
        → Elem m (if any (is_member group user) s.members then s.members else s.members ++ new ∷ [])
        → any (is_group m.group_id) s.groups ≡ true
    grows there (inl old) m n = sound.members m (rw old at n)
    grows there (inr fresh) m n = elim (Elem-append m s.members (new ∷ []) (rw fresh at n)) [
      | inl k ↦ sound.members m k
      | inr (inl k) ↦
          subst (λ (x : Member). any (is_group x.group_id) s.groups ≡ true) (sym k) there
      | inr (inr nothing) ↦ absurd nothing
    ]

pub remove_member-IsAssigned :
    (db : Places) (group user : String) (s t : State)
    → IsAssigned db s
    → remove_member group user s ≡ ok t
    → IsAssigned db t
unfolding remove_member
remove_member-IsAssigned db group user s t sound h =
    let (there, e) = guard_bind (any (is_member group user) s.members) _ _ h in
    subst (IsAssigned db) (ok_injective e) (record {
      rules = sound.rules;
      permissions = sound.permissions;
      links = sound.links;
      members = λ m n.
          sound.members m (Elem-of_filter (λ o. not (is_member group user o)) m s.members n).0;
    })

renamed :
    (id : String) (change : Group → Group) (groups : List Group) (g : String)
    → ((x : Group) → (change x).id ≡ x.id)
    → any (is_group g) groups ≡ true
    → any (is_group g) (map (λ x. if is_group id x then change x else x) groups) ≡ true
renamed id change groups g keeps =
    any-map (is_group g) (λ x. if is_group id x then change x else x) groups
      (λ x h. ground (arith, keeps x))

pub update-IsAssigned :
    (db : Places) (id : String) (name : Text) (description : Option Text) (s t : State)
    → IsAssigned db s
    → update db id name description s ≡ ok t
    → IsAssigned db t
unfolding update
update-IsAssigned db id name description s t sound h =
    let (there, k) = guard_bind (any (is_group id) s.groups) _ _ h in
    let (unit, free, l) = bind-eq-ok (assert_unique db name (some id) s) _ k in
    let (distinct, e) = guard_bind _ _ _ l in
    subst (IsAssigned db) (ok_injective e) (record {
      rules = sound.rules;
      permissions = sound.permissions;
      links = λ l n.
          let (g, o) = sound.links l n in
          (renamed id (described name description) s.groups l.group_id (λ x. refl) g, o);
      members = λ m n.
          renamed id (described name description) s.groups m.group_id (λ x. refl)
            (sound.members m n);
    })

-- A test that rows of one group pass goes on passing when the rows of another are taken away.
still-IsLinked :
    (id group at : String) (links : List Link)
    → (group == id) ≡ false
    → IsLinked group at links
    → IsLinked group at (filter (λ (l : Link). not (l.group_id == id)) links)
still-IsLinked id group at links other =
    any-filter (is_link group at) (λ (l : Link). not (l.group_id == id)) links
      (λ l h. ground (arith, eq_iff l.group_id group, eq_iff l.group_id id, eq_iff group id))

still_there :
    (id group : String) (groups : List Group)
    → (group == id) ≡ false
    → any (is_group group) groups ≡ true
    → any (is_group group) (filter (λ g. not (is_group id g)) groups) ≡ true
still_there id group groups other =
    any-filter (is_group group) (λ g. not (is_group id g)) groups
      (λ g h. ground (arith, eq_iff g.id group, eq_iff g.id id, eq_iff group id))

pub remove-IsAssigned :
    (db : Places) (id : String) (s t : State)
    → IsAssigned db s
    → remove id s ≡ ok t
    → IsAssigned db t
unfolding remove
remove-IsAssigned db id s t sound h =
    let (there, k) = guard_bind (any (is_group id) s.groups) _ _ h in
    let (unused, e) = guard_bind (not (any (λ (r : Rule). r.scope.group_id == id) s.rules)) _ _ k in
    subst (IsAssigned db) (ok_injective e) (record {
      rules = λ r n.
          let (m, other) =
            Elem-of_filter (λ (r : Rule). not (r.scope.group_id == id)) r s.rules n in
          let (at, e, linked) = sound.rules r m in
          (at, e, still-IsLinked id r.scope.group_id at s.links (ground arith) linked);
      permissions = λ p n.
          let (m, other) =
            Elem-of_filter (λ (p : Permission). not (p.group_id == id)) p s.permissions n in
          still-IsLinked id p.group_id p.site_id s.links (ground arith) (sound.permissions p m);
      links = λ l n.
          let (m, other) = Elem-of_filter (λ (l : Link). not (l.group_id == id)) l s.links n in
          let (g, o) = sound.links l m in (still_there id l.group_id s.groups (ground arith) g, o);
      members = λ m n.
          let (k, other) = Elem-of_filter (λ (m : Member). not (m.group_id == id)) m s.members n in
          still_there id m.group_id s.groups (ground arith) (sound.members m k);
    })

pub create-IsAssigned :
    (db : Places) (id : String) (name : Text) (description : Option Text) (site_ids : List String)
    (s t : State)
    → IsAssigned db s
    → create db id name description site_ids s ≡ ok t
    → IsAssigned db t
unfolding create
create-IsAssigned db id name description site_ids s t sound h =
    let (unit, free, k) = bind-eq-ok (assert_unique db name none s) _ h in
    let (counted, l) = guard_bind _ _ _ k in
    let (distinct, e) =
      guard_bind
        (not (any (has_name (trim name) none) s.groups) && all (λ i. includes i db.sites) ids) _ _
        l in
    subst (IsAssigned db) (ok_injective e) (record {
      rules = λ r n.
          let (at, e, linked) = sound.rules r n in
          (at, e, any-append_left (is_link r.scope.group_id at) s.links new linked);
      permissions =
          λ p n. any-append_left (is_link p.group_id p.site_id) s.links new (sound.permissions p n);
      links = λ l n. elim (Elem-append l s.links new n) [
        | inl old ↦
            let (g, o) = sound.links l old in
            (any-append_left (is_group l.group_id) s.groups (group ∷ []) g, o)
        | inr own ↦ of_new l own (known (any (has_name (trim name) none) s.groups) distinct)
      ];
      members =
          λ m n. any-append_left (is_group m.group_id) s.groups (group ∷ []) (sound.members m n);
    })
  where
    ids : List String
    ids = unique site_ids

    group : Group
    group = record { id = id; name = trim name; description = trimmed description }

    new : List Link
    new = map (λ i. record { group_id = id; site_id = i }) ids

    known :
        (a : Bool)
        → not a && all (λ i. includes i db.sites) ids ≡ true
        → all (λ i. includes i db.sites) ids ≡ true
    known a h = ground arith

    of_new :
        (l : Link)
        → Elem l new
        → all (λ i. includes i db.sites) ids ≡ true
        → (any (is_group l.group_id) (s.groups ++ group ∷ []) ≡ true)
          × (includes l.site_id db.sites ≡ true)
    of_new l m h =
        let (i, n, e) = Elem-of_map (λ i. record { group_id = id; site_id = i }) l ids m in
        subst
          (λ (x : Link).
            (any (is_group x.group_id) (s.groups ++ group ∷ []) ≡ true)
            × (includes x.site_id db.sites ≡ true))
          (sym e)
          (
            any-append_right (is_group id) s.groups (group ∷ [])
                (ground (arith, (eq_iff id id).1 refl)),
            all-Elem (λ i. includes i db.sites) i ids h n,
          )
