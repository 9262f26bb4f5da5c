-- ===== src/Snmp/Traps/Association/Laws.antt =====
-- What the owner of a notification has to do with it.
use management_app.Base.{
  ℕ, ◌≡◌, refl, sym, ◌∙◌, inl, inr, arith, Bool, true, false, ◌&&◌, none, some, List, [], ◌∷◌, ◌++◌,
  ◌≢◌, ap, any, is_empty, filter, ltb, Elem, Elem-of_find, find-none, Elem-of_filter, Elem-filter,
  Bool-cases, Option-cases,
}
use mathlib.Core.Path.{subst}
use management_app.Text.{Text}
use management_app.Text.Sets.{same, same_iff}
use management_app.Snmp.Credentials.{Version, v2c, v3, Vault}
use management_app.Snmp.Listeners.{is_text, snmp_self_test_source_allowed}
use management_app.Snmp.Traps.Store.{Credential, Device, Enrollment, State}
use management_app.Snmp.Traps.Notifications.{Host}
use management_app.Snmp.Traps.Association.{
  identifies, opens_as, credential_of, match_credential, match_enrollment, local_addresses,
  is_candidate, only, match_self_test, Owner, device, enrolled, nobody, owner_self_test, owner_of,
}

abbrev trusted : Vault → Version → Text → Credential → Bool
trusted vault version identity c =
    c.is_trap && c.enabled && identifies vault version identity c.stored

-- The device has the source as its management address, and its credential is an enabled trap
-- credential of the version whose secret holds the identity.
abbrev pub Vouches : Vault → Version → Text → Text → Device → Credential → Type 0
Vouches vault version identity source d c =
    (is_text source d.management_ip ≡ true)
    × Elem c d.snmp_credentials
    × (c.is_trap ≡ true)
    × (c.enabled ≡ true)
    × (identifies vault version identity c.stored ≡ true)

-- The enrollment is open for the source, and its secret holds the identity.
abbrev pub Awaits : Vault → ℕ → Version → Text → Text → Enrollment → Type 0
Awaits vault now version identity source e =
    (e.source_address ≡ source)
    × (ltb now e.expires_at ≡ true)
    × (identifies vault version identity e.stored ≡ true)

-- The enrollment stands for a self test of one of the host's own addresses.
abbrev pub IsSelfTest : Host → ℕ → Text → State → Enrollment → Type 0
IsSelfTest h now identity s e =
    (is_candidate now identity (local_addresses h now s) e ≡ true)
    × (opens_as h.vault v3 identity e.stored ≡ true)

module _ (vault : Vault) (version : Version) (identity source : Text) where
  match_credential-Vouches :
      (devices : List Device) (d : Device) (c : Credential)
      → match_credential vault version identity source devices ≡ some (d, c)
      → Elem d devices × Vouches vault version identity source d c
  unfolding match_credential
  match_credential-Vouches [] d c h = absurd (cc)
  match_credential-Vouches (x ∷ devices) d c h =
      elim (Bool-cases (is_text source x.management_ip)) [
        | inr elsewhere ↦
            let r = match_credential-Vouches devices d c (ground arith) in (inr r.0, r.1)
        | inl here ↦ elim (Option-cases (credential_of vault version identity x)) [
          | inl nothing ↦
              let r = match_credential-Vouches devices d c (ground arith) in (inr r.0, r.1)
          | inr (k, found) ↦
              let (m, t) =
                Elem-of_find (trusted vault version identity) k x.snmp_credentials found in
              let same_device : x ≡ d = ground arith in
              let same_credential : k ≡ c = ground arith in
              let vouched : Vouches vault version identity source x k =
                (here, m, ground arith, ground arith, ground arith) in
              (
                inl (sym same_device),
                subst (λ (x : Device). Vouches vault version identity source x c) same_device
                    (subst (λ (k : Credential). Vouches vault version identity source x k)
                      same_credential vouched),
              )
        ]
      ]

  match_credential-none :
      (devices : List Device) (d : Device) (c : Credential)
      → match_credential vault version identity source devices ≡ none
      → Elem d devices
      → ¬ Vouches vault version identity source d c
  unfolding match_credential
  match_credential-none [] d c h m v = absurd m
  match_credential-none (x ∷ devices) d c h (inr m) v =
      match_credential-none devices d c
        (ground (arith, Option-cases (credential_of vault version identity x))) m v
  match_credential-none (x ∷ devices) d c h (inl e) v =
      let (here, m, t) = subst (λ (d : Device). Here d) e (v.0, v.1, trusts) in
      let nothing : credential_of vault version identity x ≡ none =
        ground (arith, Option-cases (credential_of vault version identity x)) in
      let no = find-none (trusted vault version identity) c x.snmp_credentials nothing m in cc
    where
      Here : Device → Type 0
      Here d =
          (is_text source d.management_ip ≡ true)
          × Elem c d.snmp_credentials
          × (trusted vault version identity c ≡ true)

      trusts : trusted vault version identity c ≡ true
      trusts = ground arith

  match_enrollment-none :
      (now : ℕ) (es : List Enrollment) (e : Enrollment)
      → match_enrollment vault now version identity source es ≡ none
      → Elem e es
      → ¬ Awaits vault now version identity source e
  unfolding match_enrollment
  match_enrollment-none now es e h m a =
      let no =
        find-none
          (λ (e : Enrollment).
            same e.source_address source
            && ltb now e.expires_at
            && identifies vault version identity e.stored)
          e es h m in
      ground (arith, (same_iff e.source_address source).1 a.0)

  match_enrollment-Awaits :
      (now : ℕ) (es : List Enrollment) (e : Enrollment)
      → match_enrollment vault now version identity source es ≡ some e
      → Elem e es × Awaits vault now version identity source e
  unfolding match_enrollment
  match_enrollment-Awaits now es e h =
      let (m, t) =
        Elem-of_find
          (λ (e : Enrollment).
            same e.source_address source
            && ltb now e.expires_at
            && identifies vault version identity e.stored)
          e es h in
      (m, (ground (arith, same_iff e.source_address source), ground arith, ground arith))

only_lem :
    (xs : List Enrollment) (e : Enrollment)
    → only xs ≡ some e
    → Elem e xs × ((f : Enrollment) → Elem f xs → f ≡ e)
only_lem [] e h = absurd (cc)
only_lem (x ∷ []) e h =
    let one : x ≡ e = ground arith in
    (inl (sym one), (λ f m. elim m [ inl k ↦ k ∙ one | inr nothing ↦ absurd nothing ]))
only_lem (x ∷ y ∷ xs) e h = absurd (cc)

module _ (h : Host) (now : ℕ) (identity : Text) (s : State) where
  match_self_test-IsSelfTest :
      (e : Enrollment)
      → match_self_test h now identity s ≡ some e
      → Elem e s.enrollments
        × IsSelfTest h now identity s e
        × ((f : Enrollment) → Elem f s.enrollments → IsSelfTest h now identity s f → f ≡ e)
  unfolding match_self_test
  match_self_test-IsSelfTest e k =
      let opens = λ (e : Enrollment). opens_as h.vault v3 identity e.stored in
      let fits = is_candidate now identity (local_addresses h now s) in
      let (m, one) = only_lem (filter opens (filter fits s.enrollments)) e (ground arith) in
      let (m1, t1) = Elem-of_filter opens e (filter fits s.enrollments) m in
      let (m2, t2) = Elem-of_filter fits e s.enrollments m1 in
      (
        m2,
        (t2, t1),
        (λ f mf t. one f (Elem-filter opens f _ (Elem-filter fits f s.enrollments mf t.0) t.1)),
      )

module _ (keep : Enrollment → Bool) where
  filter-nothing : (xs : List Enrollment) → any keep xs ≡ false → filter keep xs ≡ []
  filter-nothing [] h = refl
  filter-nothing (x ∷ xs) h = elim (Bool-cases (keep x)) [
    | inl k ↦ let hit : any keep (x ∷ xs) ≡ true = rw k refl in absurd (cc)
    | inr k ↦ rw k (filter-nothing xs (rw k at h))
  ]

  filter-alone :
      (before after : List Enrollment) (e : Enrollment)
      → keep e ≡ true
      → any keep (before ++ after) ≡ false
      → filter keep (before ++ e ∷ after) ≡ e ∷ []
  filter-alone [] after e k h = rw (k, filter-nothing after h) refl
  filter-alone (x ∷ before) after e k h = elim (Bool-cases (keep x)) [
    | inl t ↦ let hit : any keep (x ∷ (before ++ after)) ≡ true = rw t refl in absurd (cc)
    | inr t ↦ rw t (filter-alone before after e k (rw t at h))
  ]

filter-filter :
    (p q : Enrollment → Bool) (xs : List Enrollment)
    → filter q (filter p xs) ≡ filter (λ x. p x && q x) xs
filter-filter p q [] = refl
filter-filter p q (x ∷ xs) = elim (Bool-cases (p x)) [
  | inr k ↦ rw k (filter-filter p q xs)
  | inl k ↦ elim (Bool-cases (q x)) [
    | inl t ↦ rw (k, t) (ap (λ ys. x ∷ ys) (filter-filter p q xs))
    | inr t ↦ rw (k, t) (filter-filter p q xs)
  ]
]

one_keeps :
    (keep : Enrollment → Bool) (xs : List Enrollment)
    → any keep xs ≡ true
    → (f : Enrollment) × Elem f xs × (keep f ≡ true)
one_keeps keep [] h = absurd (cc)
one_keeps keep (x ∷ xs) h = elim (Bool-cases (keep x)) [
  | inl k ↦ (x, inl refl, k)
  | inr k ↦ let (f, m, t) = one_keeps keep xs (rw k at h) in (f, inr m, t)
]

empty_lem : (xs : List Text) → is_empty xs ≡ true → xs ≡ []
empty_lem [] h = refl
empty_lem (x ∷ xs) h = absurd (cc)

-- No enrollment alone stands for a self test: besides one there is another.
abbrev pub IsAmbiguous : Host → ℕ → Text → State → Type 0
IsAmbiguous h now identity s =
    (before after : List Enrollment) (e : Enrollment)
    → s.enrollments ≡ before ++ e ∷ after
    → IsSelfTest h now identity s e
    → (f : Enrollment) × Elem f (before ++ after) × IsSelfTest h now identity s f

match_self_test-IsAmbiguous :
    (h : Host) (now : ℕ) (identity : Text) (s : State)
    → match_self_test h now identity s ≡ none
    → IsAmbiguous h now identity s
unfolding match_self_test
match_self_test-IsAmbiguous h now identity s missed before after e split (fits, opens) =
    elim (Bool-cases (any keep (before ++ after))) [
      | inl found ↦
          let (f, m, k) = one_keeps keep (before ++ after) found in
          (f, m, (ground arith, ground arith))
      | inr alone ↦
          let passed : keep e ≡ true = ground arith in
          let all : filter opened (filter fitting s.enrollments) ≡ e ∷ [] =
            ap (λ xs. filter opened (filter fitting xs)) split
            ∙ filter-filter fitting opened (before ++ e ∷ after)
            ∙ filter-alone keep before after e passed alone in
          absurd (elim (Bool-cases (is_empty (local_addresses h now s))) [
            | inl k ↦
                let no : fitting e ≡ false =
                  subst (λ xs. is_candidate now identity xs e ≡ false)
                    (sym (empty_lem (local_addresses h now s) k)) refl in
                cc
            | inr k ↦
                let found : only (filter opened (filter fitting s.enrollments)) ≡ none =
                  rw k at missed in
                let is_one : only (e ∷ []) ≡ none = subst (λ xs. only xs ≡ none) all found in cc
          ])
    ]
  where
    opened : Enrollment → Bool
    opened x = opens_as h.vault v3 identity x.stored

    fitting : Enrollment → Bool
    fitting = is_candidate now identity (local_addresses h now s)

    keep : Enrollment → Bool
    keep x = fitting x && opened x

-- What an owner has to be.
abbrev pub Owns : Host → ℕ → Version → Text → Text → State → Owner → Type 0
Owns h now version identity source s (device d c) =
    Elem d s.devices × Vouches h.vault version identity source d c
Owns h now version identity source s (enrolled false e) =
    Elem e s.enrollments × Awaits h.vault now version identity source e
Owns h now version identity source s (enrolled true e) =
    Elem e s.enrollments
    × (version ≡ v3)
    × (snmp_self_test_source_allowed h.is_ip h.self_test source ≡ true)
    × IsSelfTest h now identity s e
    × ((f : Enrollment) → Elem f s.enrollments → IsSelfTest h now identity s f → f ≡ e)
Owns h now version identity source s nobody =
    ((d : Device) (c : Credential)
      → Elem d s.devices
      → ¬ Vouches h.vault version identity source d c)
    × ((e : Enrollment) → Elem e s.enrollments → ¬ Awaits h.vault now version identity source e)
    × (version ≡ v3
        → snmp_self_test_source_allowed h.is_ip h.self_test source ≡ true
        → IsAmbiguous h now identity s)

nobody-Owns :
    (h : Host) (now : ℕ) (version : Version) (identity source : Text) (s : State)
    → match_credential h.vault version identity source s.devices ≡ none
    → match_enrollment h.vault now version identity source s.enrollments ≡ none
    → (version ≡ v3
        → snmp_self_test_source_allowed h.is_ip h.self_test source ≡ true
        → IsAmbiguous h now identity s)
    → Owns h now version identity source s nobody
nobody-Owns h now version identity source s no_device no_enrollment ambiguous = (
  (λ d c m. match_credential-none h.vault version identity source s.devices d c no_device m),
  (λ e m.
      match_enrollment-none h.vault version identity source now s.enrollments e no_enrollment m),
  ambiguous,
)

v2c_lem : v2c ≢ v3
v2c_lem e = cc

owner_self_test-Owns :
    (h : Host) (now : ℕ) (version : Version) (identity source : Text) (s : State)
    → match_credential h.vault version identity source s.devices ≡ none
    → match_enrollment h.vault now version identity source s.enrollments ≡ none
    → Owns h now version identity source s (owner_self_test h now version identity source s)
unfolding owner_self_test
owner_self_test-Owns h now v2c identity source s a b =
    nobody-Owns h now v2c identity source s a b (λ e. absurd (v2c_lem e))
owner_self_test-Owns h now v3 identity source s a b =
    elim (Bool-cases (snmp_self_test_source_allowed h.is_ip h.self_test source)) [
      | inr refused ↦
          by nobody (ground arith)
            (nobody-Owns h now v3 identity source s a b (λ e allowed. absurd (cc)))
      | inl allowed ↦ elim (Option-cases (match_self_test h now identity s)) [
        | inl nothing ↦ by nobody (ground arith) (
            nobody-Owns h now v3 identity source s a b
              (λ e k. match_self_test-IsAmbiguous h now identity s nothing))
        | inr (e, found) ↦
            let (m, t, one) = match_self_test-IsSelfTest h now identity s e found in
            by (enrolled true e) (ground arith) (m, refl, allowed, t, one)
      ]
    ]
  where
    by :
        (owner : Owner)
        → owner_self_test h now v3 identity source s ≡ owner
        → Owns h now v3 identity source s owner
        → Owns h now v3 identity source s (owner_self_test h now v3 identity source s)
    by owner e owns = subst (Owns h now v3 identity source s) (sym e) owns

-- Who is found to own a notification is entitled to it. A device has the source as its address and
-- an enabled trap credential that holds the sender's identity; an enrollment is open for the source
-- and holds the identity, or else the source may stand for the host in a self test, and it is the
-- only open one of version 3 that holds the identity at an address of the host. Where nobody owns it,
-- there is no such device and no such enrollment for the source, and if the notification is of version
-- 3 and its source may stand for the host, no enrollment is the only one that stands for a self test.
pub owner_of-Owns :
    (h : Host) (now : ℕ) (version : Version) (identity source : Text) (s : State)
    → Owns h now version identity source s (owner_of h now version identity source s)
unfolding owner_of
owner_of-Owns h now version identity source s =
    elim (Option-cases (match_credential h.vault version identity source s.devices)) [
      | inr ((d, c), found) ↦
          by (device d c) (ground arith)
            (match_credential-Vouches h.vault version identity source s.devices d c found)
      | inl no_device ↦
          elim (Option-cases (match_enrollment h.vault now version identity source s.enrollments)) [
            | inr (e, found) ↦
                by (enrolled false e) (ground arith) (
                  match_enrollment-Awaits h.vault version identity source now s.enrollments e found)
            | inl no_enrollment ↦
                by (owner_self_test h now version identity source s) (ground arith)
                  (owner_self_test-Owns h now version identity source s no_device no_enrollment)
          ]
    ]
  where
    by :
        (owner : Owner)
        → owner_of h now version identity source s ≡ owner
        → Owns h now version identity source s owner
        → Owns h now version identity source s (owner_of h now version identity source s)
    by owner e owns = subst (Owns h now version identity source s) (sym e) owns
