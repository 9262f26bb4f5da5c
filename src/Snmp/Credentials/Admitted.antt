-- ===== src/Snmp/Credentials/Admitted.antt =====
-- What the authorizer admits after a reload.
use management_app.Base.{
  ◌≡◌, refl, sym, ◌⊎◌, inl, inr, ◌↔◌, arith, true, Option, none, some, List, [], ◌∷◌, any, Elem,
  Elem-append, Elem-append_left, Elem-append_right, Elem-of_any, Bool-cases, ok, Result-cases,
}
use mathlib.Core.Path.{subst}
use management_app.Text.{Text, codes}
use management_app.Text.Sets.{same_iff}
use management_app.Snmp.Keyring.{Secret}
use management_app.Snmp.Credentials.{
  Version, v2c, v3, Stored, Vault, Protocols, Authorizer, decrypt_stored_credential, field_of,
  same_option, add_community, add_user, admit, admit_all, reload_credentials,
}

same_option_iff : (c d : Option Text) → (same_option c d ≡ true) ↔ (c ≡ d)
same_option_iff none none = ((λ h. refl), (λ h. refl))
same_option_iff none (some d) = ground arith
same_option_iff (some c) none = ground arith
same_option_iff (some c) (some d) = ground (arith, same_iff c d)

Version-cases : (w : Version) → (w ≡ v2c) ⊎ (w ≡ v3)
Version-cases v2c = inl refl
Version-cases v3 = inr refl

module _ (v : Vault) (p : Protocols) where
  -- What holds after the loop held before, or one turn has brought it.
  admit_all_iff :
      (P : Authorizer → Type 0) (Q : Stored → Type 0)
      → ((c : Stored) (a : Authorizer) → P (admit v p c a) ↔ (P a ⊎ Q c))
      → (cs : List Stored) (a : Authorizer)
      → P (admit_all v p cs a) ↔ (P a ⊎ ((c : Stored) × Elem c cs × Q c))
  unfolding admit_all
  admit_all_iff P Q step [] a = ((λ h. inl h), from)
    where
      from : P a ⊎ ((c : Stored) × ⊥ × Q c) → P a
      from (inl h) = h
      from (inr (c, m, q)) = absurd m
  admit_all_iff P Q step (c ∷ cs) a =
      one_more (step c a) (admit_all_iff P Q step cs (admit v p c a))
    where
      one_more :
          (P (admit v p c a) ↔ (P a ⊎ Q c))
          → (P (admit_all v p cs (admit v p c a))
              ↔ (P (admit v p c a) ⊎ ((d : Stored) × Elem d cs × Q d)))
          → P (admit_all v p cs (admit v p c a))
            ↔ (P a ⊎ ((d : Stored) × ((d ≡ c) ⊎ Elem d cs) × Q d))
      one_more now ih = (
        (λ h. elim (ih.0 h) [
          | inl k ↦ elim (now.0 k) [ inl before ↦ inl before | inr q ↦ inr (c, inl refl, q) ]
          | inr (d, m, q) ↦ inr (d, inr m, q)
        ]),
        (λ h. elim h [
          | inl before ↦ ih.1 (inl (now.1 (inl before)))
          | inr (d, inl e, q) ↦ ih.1 (inl (now.1 (inr (subst Q e q))))
          | inr (d, inr m, q) ↦ ih.1 (inr (d, m, q))
        ]),
      )

  -- A stored credential of version 2c that opens to a community.
  abbrev pub Holds : Text → Stored → Type 0
  Holds x c =
      (s : Secret) × (c.version ≡ v2c)
      × (decrypt_stored_credential v c ≡ ok s)
      × (field_of (codes "community") s ≡ some x)

  add_community_iff :
      (x : Text) (c : Option Text) (a : Authorizer)
      → Elem (some x) (add_community c a).communities ↔ (Elem (some x) a.communities ⊎ (c ≡ some x))
  add_community_iff x c a = elim (Bool-cases (any (λ d. same_option d c) a.communities)) [
    | inl old ↦ rw old (
      (λ m. inl m),
      (λ h. elim h [ inl m ↦ m | inr e ↦ subst (λ d. Elem d a.communities) e (known old) ]),
    )
    | inr new ↦ rw new (
      (λ m. elim (Elem-append (some x) a.communities (c ∷ []) m) [
        | inl before ↦ inl before
        | inr (inl e) ↦ inr (sym e)
        | inr (inr nothing) ↦ absurd nothing
      ]),
      (λ h. elim h [
        | inl m ↦ Elem-append_left (some x) a.communities (c ∷ []) m
        | inr e ↦ Elem-append_right (some x) a.communities (c ∷ []) (inl (sym e))
      ]),
    )
  ]
    where
      known : any (λ d. same_option d c) a.communities ≡ true → Elem c a.communities
      known old =
          let (d, m, e) = Elem-of_any (λ d. same_option d c) a.communities old in
          subst (λ d. Elem d a.communities) ((same_option_iff d c).0 e) m

  add_user_communities :
      (c : Stored) (s : Secret) (a : Authorizer) → (add_user p c s a).communities ≡ a.communities
  unfolding add_user
  add_user_communities c s a = ground arith

  admit_community :
      (x : Text) (c : Stored) (a : Authorizer)
      → Elem (some x) (admit v p c a).communities ↔ (Elem (some x) a.communities ⊎ Holds x c)
  unfolding admit
  admit_community x c a = elim (Result-cases (decrypt_stored_credential v c)) [
    | inr (e, sealed) ↦
        let same_table : admit v p c a ≡ a = ground arith in
        rw same_table
          ((λ m. inl m), (λ h. elim h [ inl m ↦ m | inr (s, _, opens, _) ↦ absurd (cc) ]))
    | inl (s, opened) ↦ elim (Version-cases c.version) [
      | inl two ↦
          let next : admit v p c a ≡ add_community (field_of (codes "community") s) a =
            ground arith in
          rw next (of_v2c s opened two (add_community_iff x (field_of (codes "community") s) a))
      | inr three ↦
          let next : (admit v p c a).communities ≡ a.communities =
            ground (arith, add_user_communities c s a) in
          rw next ((λ m. inl m), (λ h. elim h [ inl m ↦ m | inr (_, two, _, _) ↦ absurd (cc) ]))
    ]
  ]
    where
      of_v2c :
          (s : Secret)
          → decrypt_stored_credential v c ≡ ok s
          → c.version ≡ v2c
          → Elem (some x) (add_community (field_of (codes "community") s) a).communities
            ↔ (Elem (some x) a.communities ⊎ (field_of (codes "community") s ≡ some x))
          → Elem (some x) (add_community (field_of (codes "community") s) a).communities
            ↔ (Elem (some x) a.communities ⊎ Holds x c)
      of_v2c s opened two step = (
        (λ m. elim (step.0 m) [ inl before ↦ inl before | inr e ↦ inr (s, two, opened, e) ]),
        (λ h. elim h [
          | inl m ↦ step.1 (inl m)
          | inr (t, _, opens, e) ↦
              let one : t ≡ s = cc in
              step.1 (inr (subst (λ t. field_of (codes "community") t ≡ some x) one e))
        ]),
      )

  -- After a reload the receiver admits a community exactly when one of the credentials that were
  -- read (the enabled trap credentials and the open enrollments) is of version 2c and opens to it.
  pub reload_iff :
      (x : Text) (cs : List Stored)
      → Elem (some x) (reload_credentials v p cs).communities
        ↔ ((c : Stored) × Elem c cs × Holds x c)
  unfolding reload_credentials
  reload_iff x cs =
      let step =
        admit_all_iff (λ a. Elem (some x) a.communities) (Holds x) (admit_community x) cs
          (record { communities = []; users = [] }) in
      ((λ m. elim (step.0 m) [ inl nothing ↦ absurd nothing | inr c ↦ c ]), (λ c. step.1 (inr c)))
