-- ===== src/Ipam/Hosts/Laws.antt =====
-- When `assertHost` passes, and what its refusals give away.
use management_app.Base.{
  ◌≡◌, refl, ◌⊎◌, inl, inr, ◌↔◌, arith, Elem, All, Bool-cases, String, Bool, true, false, none,
  some, List, [], ◌∷◌, is_empty, if◌then◌else◌, Result, ok, err, ◌>>◌, or_throw_bind, bind-eq-ok,
  seq-eq-ok, seq-eq-err,
}
use management_app.Base.HttpError.{HttpError, not_found, forbidden}
use management_app.Access.{User, IpamAction, scoped, read, admin, has_role}
use management_app.Ipam.Access.{Context, Queries, Host, assert_context, no_context}
use management_app.Ipam.Decisions.{assert_context_iff, assert_context_refusal, assert_context-admin}
use management_app.Ipam.Hosts.{contexts, any_visible, all_pass, assert_host}

module _ (db : Queries) (u : User) where
  abbrev pub Passes : IpamAction → Context → Type 0
  Passes a c = assert_context db u a c ≡ ok tt

  -- Some context of the list is readable.
  abbrev pub SomeReadable : List Context → Type 0
  SomeReadable cs = (c : Context) × Elem c cs × Passes (scoped read) c

  all_pass_sound :
      (a : IpamAction) (v : Bool) (cs : List Context)
      → all_pass db u a v cs ≡ ok tt
      → All (Passes a) cs
  unfolding all_pass
  all_pass_sound a v [] h = tt
  all_pass_sound a v (c ∷ cs) h = elim (assert_context_refusal db u a c) [
    | inl pass ↦ (pass, all_pass_sound a v cs (rw (pass, all_pass) at h))
    | inr (inl (refused, _)) ↦ absurd (ground (arith, refused))
    | inr (inr (refused, _)) ↦ absurd (ground (arith, refused))
  ]

  all_pass_complete :
      (a : IpamAction) (v : Bool) (cs : List Context)
      → All (Passes a) cs
      → all_pass db u a v cs ≡ ok tt
  unfolding all_pass
  all_pass_complete a v [] h = refl
  all_pass_complete a v (c ∷ cs) (p, h) = rw (p, all_pass) (all_pass_complete a v cs h)

  -- The first loop never throws, and says truly whether something is readable.
  any_visible_total :
      (cs : List Context) (v : Bool)
      → (b : Bool) × (any_visible db u cs v ≡ ok b) × (b ≡ true → (v ≡ true) ⊎ SomeReadable cs)
  unfolding any_visible
  any_visible_total [] v = (v, refl, (λ h. inl h))
  any_visible_total (c ∷ cs) v = elim (assert_context_refusal db u (scoped read) c) [
    | inl pass ↦
        let (b, e, _) = any_visible_total cs true in
        (b, rw (pass, any_visible) e, (λ _. inr (c, inl refl, pass)))
    | inr (inl (_, pass)) ↦
        let (b, e, _) = any_visible_total cs true in
        (b, rw (pass, any_visible) e, (λ _. inr (c, inl refl, pass)))
    | inr (inr (refused, _)) ↦
        let (b, e, more) = any_visible_total cs v in
        (b, rw (refused, any_visible) e, (λ h. further (more h)))
  ]
    where
      further : (v ≡ true) ⊎ SomeReadable cs → (v ≡ true) ⊎ SomeReadable (c ∷ cs)
      further (inl h) = inl h
      further (inr (d, m, p)) = inr (d, inr m, p)

  no_context_iff : (a : IpamAction) → Passes a no_context ↔ (has_role u admin ≡ true)
  no_context_iff a = (to, assert_context-admin db u a no_context)
    where
      to : Passes a no_context → has_role u admin ≡ true
      to h = elim ((assert_context_iff db u a no_context).0 h) [
        | inl yes_admin ↦ yes_admin
        | inr r ↦ let e : none ≡ some r.0 = r.1 in absurd (cc)
      ]

  no_context_cases :
      (a : IpamAction)
      → Passes a no_context
        ⊎ (assert_context db u a no_context ≡ err (not_found "IPAM_RESOURCE_NOT_FOUND"))
  no_context_cases a = elim (assert_context_refusal db u a no_context) [
    | inl pass ↦ inl pass
    | inr (inl (_, readable)) ↦
        inl (assert_context-admin db u a no_context ((no_context_iff (scoped read)).0 readable))
    | inr (inr (refused, _)) ↦ inr refused
  ]

  all_pass_forbidden :
      (a : IpamAction) (v : Bool) (cs : List Context) (code : String)
      → all_pass db u a v cs ≡ err (forbidden code)
      → (v ≡ true) ⊎ SomeReadable cs
  unfolding all_pass
  all_pass_forbidden a v [] code h = absurd (cc)
  all_pass_forbidden a v (c ∷ cs) code h = elim (assert_context_refusal db u a c) [
    | inl pass ↦ further (all_pass_forbidden a v cs code (rw (pass, all_pass) at h))
    | inr (inl (_, readable)) ↦ inr (c, inl refl, readable)
    | inr (inr (refused, _)) ↦ inl (ground (arith, refused))
  ]
    where
      further : (v ≡ true) ⊎ SomeReadable cs → (v ≡ true) ⊎ SomeReadable (c ∷ cs)
      further (inl t) = inl t
      further (inr (d, m, p)) = inr (d, inr m, p)

-- `assertHost` gives the host exactly when it is found and the user may act on the site of every
-- one of its addresses; a host without addresses is for administrators only.
pub assert_host_iff :
    (db : Queries) (u : User) (a : IpamAction) (id : String) (h : Host)
    → (assert_host db u a id ≡ ok h) ↔ (
        (db.host id ≡ some h)
        × All (λ c. assert_context db u a c ≡ ok tt) (contexts h)
        × (is_empty h.ip_addresses ≡ true → has_role u admin ≡ true))
unfolding assert_host
assert_host_iff db u a id h = (to, from)
  where
    start : Host → Result HttpError (Unit {0})
    start x = if is_empty x.ip_addresses then assert_context db u a no_context else ok tt

    to :
        assert_host db u a id ≡ ok h
        → (db.host id ≡ some h)
          × All (λ c. assert_context db u a c ≡ ok tt) (contexts h)
          × (is_empty h.ip_addresses ≡ true → has_role u admin ≡ true)
    to r =
        let (x, found, r1) = or_throw_bind (db.host id) _ _ r in
        let (begun, r2) = seq-eq-ok (start x) _ r1 in
        let (v, _, r3) = bind-eq-ok (any_visible db u (contexts x) false) _ r2 in
        let (passed, final) = seq-eq-ok (all_pass db u a v (contexts x)) (ok x) r3 in
        let same : x ≡ h = cc in
        (
          rw (← same) found,
          all_pass_sound db u a v (contexts h) (rw same at passed),
          (λ empty.
              (no_context_iff db u a).0
                (let e : start h ≡ ok tt = rw same at begun in rw empty at e)),
        )

    from :
        (db.host id ≡ some h)
          × All (λ c. assert_context db u a c ≡ ok tt) (contexts h)
          × (is_empty h.ip_addresses ≡ true → has_role u admin ≡ true)
        → assert_host db u a id ≡ ok h
    from (found, pass, empty) =
        let (v, e, _) = any_visible_total db u (contexts h) false in
        rw (found, starts empty, e, all_pass_complete db u a v (contexts h) pass)
      where
        starts : (is_empty h.ip_addresses ≡ true → has_role u admin ≡ true) → start h ≡ ok tt
        starts empty = elim (Bool-cases (is_empty h.ip_addresses)) [
          | inl none_there ↦
              rw none_there (assert_context-admin db u a no_context (empty none_there))
          | inr some_there ↦ rw some_there
        ]

-- A refusal "forbidden" comes only where the user may read the site of one of the addresses.
pub assert_host_forbidden :
    (db : Queries) (u : User) (a : IpamAction) (id : String) (h : Host) (code : String)
    → db.host id ≡ some h
    → assert_host db u a id ≡ err (forbidden code)
    → (c : Context) × Elem c (contexts h) × (assert_context db u (scoped read) c ≡ ok tt)
unfolding assert_host
assert_host_forbidden db u a id h code found r =
    elim (starts (Bool-cases (is_empty h.ip_addresses))) [
      | inl begun ↦
          let (v, e, visible) = any_visible_total db u (contexts h) false in
          let rest : (all_pass db u a v (contexts h) >> ok h) ≡ err (forbidden code) =
            rw (found, begun, e) at r in
          found_in visible (all_pass_forbidden db u a v (contexts h) code (seq-eq-err _ h rest))
      | inr stopped ↦
          let no_more : ◌≡◌ {A = Result HttpError Host} (err (not_found "IPAM_RESOURCE_NOT_FOUND"))
              (err (forbidden code)) =
            rw (found, stopped) at r in
          absurd (cc)
    ]
  where
    start : Result HttpError (Unit {0})
    start = if is_empty h.ip_addresses then assert_context db u a no_context else ok tt

    starts :
        (is_empty h.ip_addresses ≡ true) ⊎ (is_empty h.ip_addresses ≡ false)
        → (start ≡ ok tt) ⊎ (start ≡ err (not_found "IPAM_RESOURCE_NOT_FOUND"))
    starts (inl none_there) = rw none_there (no_context_cases db u a)
    starts (inr some_there) = rw some_there (inl refl)

    found_in :
        {v : Bool}
        → (v ≡ true → (false ≡ true) ⊎ SomeReadable db u (contexts h))
        → (v ≡ true) ⊎ SomeReadable db u (contexts h)
        → SomeReadable db u (contexts h)
    found_in visible (inr readable) = readable
    found_in visible (inl seen) = elim (visible seen) [
      | inl impossible ↦ absurd (cc)
      | inr readable ↦ readable
    ]
