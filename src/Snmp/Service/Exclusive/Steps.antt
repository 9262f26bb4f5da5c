-- ===== src/Snmp/Service/Exclusive/Steps.antt =====
-- The vault under the calls of snmp.service.ts, one after another: the lock on the policy lets no two
-- of them check and write at once.
use management_app.Base.{
  inl, inr, ℕ, ◌≡◌, ◌≢◌, refl, sym, ◌∙◌, ap, Bool, not, String, List, [], Elem, Elem-of_filter,
  Result, ok,
}
use mathlib.Core.Path.{subst}
use management_app.Text.{Text}
use management_app.Snmp.Keyring.{
  Bytes, Cipher, Json, Secret, Envelope, Random, decrypt_credential, rewrap_credential,
}
use management_app.Snmp.Keyring.Rewrap.{decrypt-rewrap}
use management_app.Snmp.Traps.Store.{Enrollment}
use management_app.Snmp.Service.{
  user_of, trap_user, keyring_of, create_credential, delete_credential,
}
use management_app.Snmp.Service.Secrets.{Fault, Crypto, SecretDto, Credential, Vault}
use management_app.Snmp.Service.Enrollments.{
  has_id, create_enrollment, renew_enrollment, delete_enrollment,
}
use management_app.Snmp.Service.Accept.{Store, Call, AcceptDto, new_credential, accept_enrollment}
use management_app.Snmp.Service.Accept.Outcome.{Found, after, accept_enrollment-after}
use management_app.Snmp.Service.Accept.Handover.{found_id, has_id_iff}
use management_app.Snmp.Service.Onboard
use management_app.Snmp.Service.Onboard.Kept.{onboard_device-kept}
use management_app.Snmp.Service.Rotation.{Integration, Safe, of_integrations, rotate_credentials}
use management_app.Snmp.Service.Rotation.Loop.{IsOne}
use management_app.Snmp.Service.Rotation.Tables.{IsKept, rotate_credentials-IsKept}
use management_app.Snmp.Service.Exclusive.{
  of_credential, of_enrollment, ring_of, crypto_of, Opens, Apart-sym, IsUnshared,
  decrypt-any_active,
}
use management_app.Snmp.Service.Exclusive.Rows.{
  Under, Under-refl, Apart-Under, IsUnshared-Under, IsUnshared-fewer, IsUnshared-add_credential,
}
use management_app.Snmp.Service.Exclusive.Kept.{create_credential-kept, delete_credential-kept}
use management_app.Snmp.Service.Exclusive.Enrolled.{
  create_enrollment-kept, renew_enrollment-kept, delete_enrollment-kept,
}

-- Ids of new rows are new.
abbrev pub IsFresh : Text → Vault → Type 0
IsFresh id v = (c : Credential) → Elem c v.credentials → c.id ≢ id

module _ (aes : Cipher) (json : Json) (keys : List (Text × Bytes)) where
  pub data Step : Vault → Vault → Type 0 where
    creates :
        (key id device : Text) (r : Random) (permitted : Result Fault (Unit {0})) (sha1 : Bool)
        (purpose : String) (dto : SecretDto) (v w : Vault)
        → IsFresh id v
        → create_credential (crypto_of aes json keys key r) permitted sha1 id device purpose dto v
          ≡ ok w
        → Step v w
    deletes :
        (permitted : Result Fault (Unit {0})) (device : Text) (purpose : String) (v w : Vault)
        → delete_credential permitted device purpose v ≡ ok w
        → Step v w
    enrolls :
        (key id site address : Text) (r : Random) (permitted : Result Fault (Unit {0}))
        (is_ipv4 has_device sha1 : Bool) (now : ℕ) (dto : SecretDto) (v w : Vault)
        → ((e : Enrollment) → Elem e v.enrollments → e.id ≢ id)
        → create_enrollment
            (crypto_of aes json keys key r)
            permitted
            is_ipv4
            has_device
            sha1
            id
            site
            address
            now
            dto
            v
          ≡ ok w
        → Step v w
    renews :
        (permitted : Result Fault (Unit {0})) (id : Text) (now : ℕ) (v w : Vault)
        → renew_enrollment permitted id now v ≡ ok w
        → Step v w
    cancels :
        (permitted : Result Fault (Unit {0})) (id : Text) (v w : Vault)
        → delete_enrollment permitted id v ≡ ok w
        → Step v w
    accepts :
        (key : Text) (r : Random) (call : Call) (id : Text) (dto : AcceptDto) (s t : Store)
        → call.crypto ≡ crypto_of aes json keys key r
        → IsFresh call.credential_id s.vault
        → accept_enrollment call id dto s ≡ ok t
        → Step s.vault t.vault
    onboards :
        (key : Text) (r : Random) (call : Onboard.Call) (dto : Onboard.OnboardDto)
        (s t : Onboard.Store)
        → call.crypto ≡ crypto_of aes json keys key r
        → IsFresh call.read_id s.vault
        → IsFresh call.trap_id s.vault
        → call.read_id ≢ call.trap_id
        → Onboard.onboard_device call dto s ≡ ok t
        → Step s.vault t.vault
    rotates :
        (key : Text) (r : Random) (ivs : Text → Bytes) (v : Vault) (integrations : List Integration)
        → IsOne of_integrations integrations
        → Step v
            (rotate_credentials
              (crypto_of aes json keys key r)
              ivs
              (record { vault = v; integrations = integrations })).0.vault

  pub data Reachable : Vault → Type 0 where
    start : Reachable (record { credentials = []; enrollments = [] })
    next : (v w : Vault) → Reachable v → Step v w → Reachable w

  -- The credential of the traps holds what the enrollment held.
  accepted_Under :
      (key : Text) (r : Random) (call : Call) (id : Text) (s : Store) (f : Found call id s)
      → call.crypto ≡ crypto_of aes json keys key r
      → Under aes json keys
          (of_credential (new_credential call f.enrollment f.envelope))
          (of_enrollment f.enrollment)
  accepted_Under key r call id s f k = record {
    secrets = λ x o.
        let (opens, _) =
          decrypt-rewrap aes json call.wrap_iv f.enrollment.stored.envelope f.envelope f.ring
            wrapped in
        let new = decrypt-any_active aes json keys key f.envelope in
        let old = decrypt-any_active aes json keys key f.enrollment.stored.envelope in
        let same_answer =
          subst
            (λ y.
              decrypt_credential aes json f.envelope y
              ≡ decrypt_credential aes json f.enrollment.stored.envelope y)
            (sym ring) opens in
        cc;
    name = refl;
  }
    where
      wrapped :
          rewrap_credential aes call.wrap_iv f.enrollment.stored.envelope f.ring ≡ ok f.envelope
      wrapped =
          subst
            (λ (c : Crypto).
              rewrap_credential c.aes call.wrap_iv f.enrollment.stored.envelope f.ring
              ≡ ok f.envelope)
            k f.is_wrapped

      ring : ring_of aes json keys key ≡ f.ring
      ring = let found = subst (λ (c : Crypto). keyring_of c ≡ ok f.ring) k f.has_ring in cc

  accept_enrollment-kept :
      (key : Text) (r : Random) (call : Call) (id : Text) (dto : AcceptDto) (s t : Store)
      → call.crypto ≡ crypto_of aes json keys key r
      → IsFresh call.credential_id s.vault
      → accept_enrollment call id dto s ≡ ok t
      → IsUnshared aes json keys s.vault
      → IsUnshared aes json keys t.vault
  accept_enrollment-kept key r call id dto s t k fresh h u =
      let (f, done) = accept_enrollment-after call id dto s t h in
      let (m, i) = found_id call id dto s f in
      let w = (after call id dto s f).vault in
      let e = f.enrollment in
      let new = new_credential call e f.envelope in
      let rest : Vault = record s.vault { enrollments = w.enrollments } in
      let fewer =
        IsUnshared-fewer aes json keys s.vault rest (λ c n. n)
          (λ x n. (Elem-of_filter (λ y. not (has_id id y)) x s.vault.enrollments n).0) u in
      let under = accepted_Under key r call id s f k in
      subst (λ (y : Store). IsUnshared aes json keys y.vault) done
        (IsUnshared-add_credential aes json keys rest new fresh
          (λ c n.
            Apart-Under aes json keys (of_enrollment e) (of_credential c) (of_credential new)
              (of_credential c) under
              (Under-refl aes json keys (of_credential c) (of_credential c) refl)
              (Apart-sym aes json keys (of_credential c) (of_enrollment e) (u.across c e n m)))
          (λ x n.
            let (n2, j) = Elem-of_filter (λ y. not (has_id id y)) x s.vault.enrollments n in
            Apart-Under aes json keys (of_enrollment e) (of_enrollment x) (of_credential new)
              (of_enrollment x) under
              (Under-refl aes json keys (of_enrollment x) (of_enrollment x) refl)
              (u.enrollments e x m n2 (λ q. (has_id_iff id x).0 j (sym q ∙ i))))
          fewer)

  -- A row that is sealed again holds what it held.
  rotate_credentials-kept :
      (key : Text) (r : Random) (ivs : Text → Bytes) (v : Vault) (integrations : List Integration)
      → IsOne of_integrations integrations
      → IsUnshared aes json keys v
      → IsUnshared aes json keys
          (rotate_credentials
            (crypto_of aes json keys key r)
            ivs
            (record { vault = v; integrations = integrations })).0.vault
  rotate_credentials-kept key r ivs v integrations one u =
      IsUnshared-Under aes json keys v t.vault (kept.credentials.one u.one)
        (kept.enrollments.one u.single)
        (λ c m.
          let (b, n, k) = kept.credentials.from c m in
          (
            b,
            n,
            k.id,
            record {
              secrets = opened c.stored.envelope b.stored.envelope k.secret.opens;
              name = elim k.rest [ inl e ↦ ap trap_user e | inr (x, e) ↦ ap trap_user e ];
            },
          ))
        (λ c m.
          let (b, n, k) = kept.enrollments.from c m in
          (
            b,
            n,
            k.id,
            record {
              secrets = opened c.stored.envelope b.stored.envelope k.secret.opens;
              name = elim k.rest [
                | inl e ↦ ap (λ (x : Enrollment). user_of x.stored) e
                | inr (x, e) ↦ ap (λ (x : Enrollment). user_of x.stored) e
              ];
            },
          ))
        u
    where
      t : Safe
      t =
          (rotate_credentials (crypto_of aes json keys key r) ivs
            (record { vault = v; integrations = integrations })).0

      kept :
          IsKept
            (crypto_of aes json keys key r)
            (ring_of aes json keys key)
            ivs
            (record { vault = v; integrations = integrations })
            t
      kept =
          rotate_credentials-IsKept (crypto_of aes json keys key r) (ring_of aes json keys key) ivs
            (record { vault = v; integrations = integrations }) u.one u.single one refl

      opened :
          (e f : Envelope)
          → decrypt_credential aes json e (ring_of aes json keys key)
            ≡ decrypt_credential aes json f (ring_of aes json keys key)
          → (s : Secret) → Opens aes json keys e s
          → Opens aes json keys f s
      opened e f k s o =
          let p = decrypt-any_active aes json keys key e in
          let q = decrypt-any_active aes json keys key f in cc

  step-IsUnshared :
      (v w : Vault) → Step v w → IsUnshared aes json keys v → IsUnshared aes json keys w
  step-IsUnshared _ _ (creates key id device r permitted sha1 purpose dto v w fresh h) u =
      create_credential-kept aes json keys key id device r permitted sha1 purpose dto v w u fresh h
  step-IsUnshared _ _ (deletes permitted device purpose v w h) u =
      delete_credential-kept aes json keys permitted device purpose v w u h
  step-IsUnshared _ _
        (enrolls key id site address r permitted is_ipv4 has_device sha1 now dto v w fresh h) u =
      create_enrollment-kept aes json keys key id site address r permitted is_ipv4 has_device sha1
        now dto v w u fresh h
  step-IsUnshared _ _ (renews permitted id now v w h) u =
      renew_enrollment-kept aes json keys permitted id now v w u h
  step-IsUnshared _ _ (cancels permitted id v w h) u =
      delete_enrollment-kept aes json keys permitted id v w u h
  step-IsUnshared _ _ (accepts key r call id dto s t k fresh h) u =
      accept_enrollment-kept key r call id dto s t k fresh h u
  step-IsUnshared _ _ (onboards key r call dto s t k fresh_read fresh_trap differ h) u =
      onboard_device-kept aes json keys key r call dto s t k fresh_read fresh_trap differ h u
  step-IsUnshared _ _ (rotates key r ivs v integrations one) u =
      rotate_credentials-kept key r ivs v integrations one u

  -- However credentials are made, replaced and deleted, enrollments made, renewed, cancelled and accepted,
  -- devices onboarded and envelopes rotated, no secret ever opens from two rows of the vault, under whichever key of the
  -- keyring each was sealed, and no two rows take traps under one user name; an id stands for one row.
  pub Reachable-IsUnshared : (v : Vault) → Reachable v → IsUnshared aes json keys v
  Reachable-IsUnshared _ start = record {
    one = λ c d m. absurd m;
    single = λ e f m. absurd m;
    credentials = λ c d m. absurd m;
    across = λ c e m. absurd m;
    enrollments = λ c d m. absurd m;
  }
  Reachable-IsUnshared _ (next u v r s) = step-IsUnshared u v s (Reachable-IsUnshared u r)
