-- ===== src/Snmp/Service/Rotation/Tables.antt =====
-- A rotation of the three tables.
use management_app.Base.{
  ℕ, ◌+◌, ◌≡◌, refl, sym, ◌∙◌, ap, ◌⊎◌, inl, inr, Elem, List, Result, Result-cases, ok, err,
}
use mathlib.Core.Path.{subst}
use management_app.Text.{Text}
use management_app.Snmp.Keyring.{Bytes, Keyring, Envelope, Failure, key_of, decrypt_credential}
use management_app.Snmp.Traps.Store.{Enrollment}
use management_app.Snmp.Service.{keyring_of}
use management_app.Snmp.Service.Secrets.{Credential, Crypto, Fault, crypto}
use management_app.Snmp.Service.Rotation.{
  rotate_rows, of_credentials, of_enrollments, of_integrations, Integration, Safe, thrown_count,
  rotate_enrollments, rotate_credentials,
}
use management_app.Snmp.Service.Rotation.Same.{IsKind}
use management_app.Snmp.Service.Rotation.Loop.{IsOne, IsResealed, IsResealed-refl}
use management_app.Snmp.Service.Rotation.Opened.{whole-IsResealed, whole-keys}

pub credentials-IsKind : IsKind of_credentials
credentials-IsKind = record {
  id-put = λ e a. refl;
  envelope-put = λ e a. refl;
  put-put = λ e f a. refl;
}

pub enrollments-IsKind : IsKind of_enrollments
enrollments-IsKind = record {
  id-put = λ e a. refl;
  envelope-put = λ e a. refl;
  put-put = λ e f a. refl;
}

pub integrations-IsKind : IsKind of_integrations
integrations-IsKind = record {
  id-put = λ e a. refl;
  envelope-put = λ e a. refl;
  put-put = λ e f a. refl;
}

-- Every row is there, with an envelope of its secret.
pub record IsKept (k : Crypto) (ring : Keyring) (ivs : Text → Bytes) (s t : Safe) : Type 0 where
  pub credentials :
      IsResealed k.aes k.json ring of_credentials credentials-IsKind ivs s.vault.credentials
        t.vault.credentials
  pub enrollments :
      IsResealed k.aes k.json ring of_enrollments enrollments-IsKind ivs s.vault.enrollments
        t.vault.enrollments
  pub integrations :
      IsResealed k.aes k.json ring of_integrations integrations-IsKind ivs s.integrations
        t.integrations

-- A row of one of the tables, by its id.
pub data Row : Type 0 where
  credential_row enrollment_row integration_row : Text → Row

-- The envelopes of all rows.
pub data Holds (t : Safe) : Row → Envelope → Type 0 where
  credential :
      (c : Credential)
      → Elem c t.vault.credentials
      → Holds t (credential_row c.id) c.stored.envelope
  enrollment :
      (e : Enrollment)
      → Elem e t.vault.enrollments
      → Holds t (enrollment_row e.id) e.stored.envelope
  integration :
      (i : Integration) → Elem i t.integrations → Holds t (integration_row i.id) i.envelope

-- The row was there, and gave the same secret or error.
HeldBefore : Crypto → Keyring → Safe → Row → Envelope → Type 0
HeldBefore k ring s row e =
    (f : Envelope) × Holds s row f
    × (decrypt_credential k.aes k.json e ring ≡ decrypt_credential k.aes k.json f ring)

kept-held :
    (k : Crypto) (ring : Keyring) (ivs : Text → Bytes) (s t : Safe) (row : Row) (e : Envelope)
    → IsKept k ring ivs s t
    → Holds t row e
    → HeldBefore k ring s row e
unfolding HeldBefore
kept-held k ring ivs s t _ _ kept (credential c m) =
    let (b, n, r) = kept.credentials.from c m in
    (
      b.stored.envelope,
      subst (λ i. Holds s (credential_row i) b.stored.envelope) (sym r.id) (credential b n),
      r.secret.opens,
    )
kept-held k ring ivs s t _ _ kept (enrollment c m) =
    let (b, n, r) = kept.enrollments.from c m in
    (
      b.stored.envelope,
      subst (λ i. Holds s (enrollment_row i) b.stored.envelope) (sym r.id) (enrollment b n),
      r.secret.opens,
    )
kept-held k ring ivs s t _ _ kept (integration c m) =
    let (b, n, r) = kept.integrations.from c m in
    (
      b.envelope,
      subst (λ i. Holds s (integration_row i) b.envelope) (sym r.id) (integration b n),
      r.secret.opens,
    )

decrypt-same_key :
    (k : Crypto) (e : Envelope) (ring later : Keyring)
    → key_of e.key_id later.keys ≡ key_of e.key_id ring.keys
    → decrypt_credential k.aes k.json e later ≡ decrypt_credential k.aes k.json e ring
unfolding decrypt_credential
decrypt-same_key k e ring later h = rw h refl

module _ (k : Crypto) (ring : Keyring) (ivs : Text → Bytes) (s : Safe)
    (one_c : IsOne of_credentials s.vault.credentials)
    (one_e : IsOne of_enrollments s.vault.enrollments)
    (one_i : IsOne of_integrations s.integrations) where
  abbrev cs : List Credential × Result Failure ℕ
  cs = rotate_rows of_credentials k.aes ivs ring s.vault.credentials s.vault.credentials

  abbrev es : List Enrollment × Result Failure ℕ
  es = rotate_rows of_enrollments k.aes ivs ring s.vault.enrollments s.vault.enrollments

  abbrev is : List Integration × Result Failure ℕ
  is = rotate_rows of_integrations k.aes ivs ring s.integrations s.integrations

  abbrev tables : List Credential → List Enrollment → List Integration → Safe
  tables c e i = record { vault = record { credentials = c; enrollments = e }; integrations = i }

  -- Where a loop fails, the tables after it are as they were.
  rotation_cases :
      keyring_of k ≡ ok ring
      → ((e : Failure) × (rotate_credentials k ivs s
            ≡ (tables cs.0 s.vault.enrollments s.integrations, err (crypto e))))
        ⊎ (((e : Failure) × (rotate_credentials k ivs s
                ≡ (tables cs.0 es.0 s.integrations, err (crypto e))))
            ⊎ ((n m : ℕ) × (cs.1 ≡ ok n)
                × (es.1 ≡ ok m)
                × (rotate_credentials k ivs s
                    ≡ (tables cs.0 es.0 is.0, thrown_count is.1 (n + m)))))
  unfolding rotate_credentials
  rotation_cases h = elim (Result-cases cs.1) [
    | inr (f, e) ↦ inl (f, rw (h, e, rotate_credentials) refl)
    | inl (n, e) ↦ elim (Result-cases es.1) [
      | inr (f, g) ↦ inr (inl (f, rw (h, e, g, rotate_enrollments, rotate_credentials) refl))
      | inl (m, g) ↦
          inr (inr (n, m, e, g, rw (h, e, g, rotate_enrollments, rotate_credentials) refl))
    ]
  ]

  -- A rotation, also one that stops at a row that cannot be opened, loses no row and makes none, and each
  -- row gives the same secret or error as before and keeps all but its envelope, where an id stands for
  -- one row.
  pub rotate_credentials-IsKept :
      keyring_of k ≡ ok ring → IsKept k ring ivs s (rotate_credentials k ivs s).0
  rotate_credentials-IsKept h = elim (rotation_cases h) [
    | inl (f, e) ↦ rw e (record { credentials = kept_c; enrollments = old_e; integrations = old_i })
    | inr (inl (f, e)) ↦
        rw e (record { credentials = kept_c; enrollments = kept_e; integrations = old_i })
    | inr (inr (n, m, _, _, e)) ↦
        rw e (record { credentials = kept_c; enrollments = kept_e; integrations = kept_i })
  ]
    where
      kept_c :
          IsResealed k.aes k.json ring of_credentials credentials-IsKind ivs s.vault.credentials
            cs.0
      kept_c =
          whole-IsResealed k.aes k.json ring of_credentials credentials-IsKind ivs
            s.vault.credentials one_c

      kept_e :
          IsResealed k.aes k.json ring of_enrollments enrollments-IsKind ivs s.vault.enrollments
            es.0
      kept_e =
          whole-IsResealed k.aes k.json ring of_enrollments enrollments-IsKind ivs
            s.vault.enrollments one_e

      kept_i :
          IsResealed k.aes k.json ring of_integrations integrations-IsKind ivs s.integrations is.0
      kept_i =
          whole-IsResealed k.aes k.json ring of_integrations integrations-IsKind ivs s.integrations
            one_i

      old_e :
          IsResealed k.aes k.json ring of_enrollments enrollments-IsKind ivs s.vault.enrollments
            s.vault.enrollments
      old_e =
          IsResealed-refl k.aes k.json ring of_enrollments enrollments-IsKind ivs
            s.vault.enrollments

      old_i :
          IsResealed k.aes k.json ring of_integrations integrations-IsKind ivs s.integrations
            s.integrations
      old_i =
          IsResealed-refl k.aes k.json ring of_integrations integrations-IsKind ivs s.integrations

  count-ok : (r : Result Failure ℕ) (n m : ℕ) → thrown_count r n ≡ ok m → (i : ℕ) × (r ≡ ok i)
  count-ok (ok i) n m h = (i, refl)
  count-ok (err e) n m h = absurd (cc)

  rotation-keys :
      (n : ℕ)
      → keyring_of k ≡ ok ring
      → (rotate_credentials k ivs s).1 ≡ ok n
      → (row : Row) (e : Envelope) → Holds (rotate_credentials k ivs s).0 row e
      → e.key_id ≡ ring.active_key_id
  rotation-keys n h done row e held = elim (rotation_cases h) [
    | inl (f, q) ↦ absurd (failed f (sym (ap (λ (x : Safe × Result Fault ℕ). x.1) q) ∙ done))
    | inr (inl (f, q)) ↦ absurd (failed f (sym (ap (λ (x : Safe × Result Fault ℕ). x.1) q) ∙ done))
    | inr (inr (i, j, qc, qe, q)) ↦
        let (l, qi) =
          count-ok is.1 (i + j) n (sym (ap (λ (x : Safe × Result Fault ℕ). x.1) q) ∙ done) in
        by_row i j l qc qe qi row e (subst (λ (x : Safe × Result Fault ℕ). Holds x.0 row e) q held)
  ]
    where
      failed : (f : Failure) → ◌≡◌ {A = Result Fault ℕ} (err (crypto f)) (ok n) → ⊥
      failed f q = cc

      by_row :
          (i j l : ℕ)
          → cs.1 ≡ ok i
          → es.1 ≡ ok j
          → is.1 ≡ ok l
          → (row : Row) (e : Envelope) → Holds (tables cs.0 es.0 is.0) row e
          → e.key_id ≡ ring.active_key_id
      by_row i j l qc qe qi _ _ (credential c m) =
          whole-keys k.aes k.json ring of_credentials credentials-IsKind ivs s.vault.credentials i
            one_c qc c m
      by_row i j l qc qe qi _ _ (enrollment c m) =
          whole-keys k.aes k.json ring of_enrollments enrollments-IsKind ivs s.vault.enrollments j
            one_e qe c m
      by_row i j l qc qe qi _ _ (integration c m) =
          whole-keys k.aes k.json ring of_integrations integrations-IsKind ivs s.integrations l
            one_i qi c m

  -- After a rotation that succeeds, where an id stands for one row, each row names the active key and
  -- gives, under every keyring in which that key is the same, the secret or error that the row gave
  -- under the keyring before: also where the old keys are gone, what could be opened still can.
  pub rotate_credentials-decrypt :
      (n : ℕ) (later : Keyring) (row : Row) (e : Envelope)
      → keyring_of k ≡ ok ring
      → (rotate_credentials k ivs s).1 ≡ ok n
      → key_of ring.active_key_id later.keys ≡ key_of ring.active_key_id ring.keys
      → Holds (rotate_credentials k ivs s).0 row e
      → (e.key_id ≡ ring.active_key_id)
        × ((f : Envelope) × Holds s row f
            × (decrypt_credential k.aes k.json e later ≡ decrypt_credential k.aes k.json f ring))
  unfolding HeldBefore
  rotate_credentials-decrypt n later row e h done same_key held =
      let active = rotation-keys n h done row e held in
      let (f, was, opens) =
        kept-held k ring ivs s (rotate_credentials k ivs s).0 row e (rotate_credentials-IsKept h)
          held in
      let under_later =
        decrypt-same_key k e ring later
          (subst (λ id. key_of id later.keys ≡ key_of id ring.keys) (sym active) same_key) in
      (active, (f, was, under_later ∙ opens))
