-- ===== src/Snmp/Service/Onboard/Kept.antt =====
-- The credentials that `onboardDevice` of snmp.service.ts makes keep the policy of the vault.
use management_app.Base.{
  ◌≡◌, ◌≢◌, refl, sym, ◌∙◌, ap, inl, inr, arith, Bool, true, false, not, Option, none, some, List,
  [], ◌∷◌, ◌++◌, Elem, ok, bind-eq-ok, seq-eq-ok, guard_bind, any,
}
use mathlib.Core.Path.{subst}
use management_app.Text.{Text}
use management_app.Text.Sets.{same_iff}
use management_app.Snmp.Keyring.{
  Bytes, Cipher, Json, Secret, Keyring, Envelope, Random, encrypt_credential,
}
use management_app.Snmp.Service.{assert_secret_available, options_for}
use management_app.Snmp.Service.Secrets.{
  thrown, read, trap, Credential, Vault, SecretDto, Crypto, credential_secret,
}
use management_app.Snmp.Service.Accept.{is_managed_at, validate_onboarding_assets}
use management_app.Snmp.Service.Accept.Outcome.{ok-injective}
use management_app.Snmp.Service.Schedule.{or_false}
use management_app.Snmp.Service.Exclusive.{
  of_credential, ring_of, crypto_of, Opens-one, Apart, IsUnshared,
}
use management_app.Snmp.Service.Exclusive.Holders.{thrown-ok}
use management_app.Snmp.Service.Exclusive.Rows.{Elem-snoc, IsUnshared-add_credential}
use management_app.Snmp.Service.Onboard.{
  OnboardDto, Store, Call, Secrets, same_secret, trap_secret_of, secrets_of, read_row, trap_row,
  checked_trap, sealed_trap, credentials_of, added, validate_onboarding_rack, onboard_checks,
  onboard_transaction, onboard_device,
}
use management_app.Snmp.Service.Onboard.Fresh.{IsNew, ring-available, called-IsNew}

other_secret :
    (k : Crypto) (secret t second : Secret)
    → not (same_secret k secret t) ≡ true
    → t ≡ second
    → same_secret k secret second ≡ false
other_secret k secret t second h q = rw (sym q) (ground arith)

trap_secret_of-some :
    (k : Crypto) (sha1 : Bool) (secret : Secret) (o : Option SecretDto) (dto : SecretDto)
    (second : Secret)
    → trap_secret_of k sha1 secret o ≡ ok (some (dto, second))
    → (credential_secret dto sha1 ≡ ok second) × (same_secret k secret second ≡ false)
trap_secret_of-some k sha1 secret none dto second h = absurd (cc)
trap_secret_of-some k sha1 secret (some x) dto second h =
    let (t, made, h1) = bind-eq-ok (credential_secret x sha1) _ h in
    let (other, h2) = guard_bind (not (same_secret k secret t)) _ _ h1 in
    let p : x ≡ dto = cc in
    let q : t ≡ second = cc in
    (
      subst (λ y. credential_secret y sha1 ≡ ok second) p (rw q at made),
      other_secret k secret t second other q,
    )

module _ (aes : Cipher) (json : Json) (keys : List (Text × Bytes)) where
  -- What the secrets of a request are.
  secrets_of-made :
      (k : Crypto) (dto : OnboardDto) (secrets : Secrets)
      → secrets_of k dto ≡ ok secrets
      → (credential_secret dto.read_credential (or_false dto.config.compatibility_sha1)
          ≡ ok secrets.0)
        × (trap_secret_of k (or_false dto.config.compatibility_sha1) secrets.0 dto.trap_credential
            ≡ ok secrets.1)
  unfolding secrets_of
  secrets_of-made k dto secrets h =
      let sha1 = or_false dto.config.compatibility_sha1 in
      let (s, made, h1) = bind-eq-ok (credential_secret dto.read_credential sha1) _ h in
      let (t, second, h2) = bind-eq-ok (trap_secret_of k sha1 s dto.trap_credential) _ h1 in
      let p : s ≡ secrets.0 = cc in
      let q : t ≡ secrets.1 = cc in
      (
        rw p at made,
        subst (λ x. trap_secret_of k sha1 x dto.trap_credential ≡ ok secrets.1) p (rw q at second),
      )

  added-kept :
      (v : Vault) (a : Credential) (secret : Secret)
      → ((c : Credential) → Elem c v.credentials → c.id ≢ a.id)
      → IsNew aes json keys v a secret
      → IsUnshared aes json keys v
      → IsUnshared aes json keys (record v { credentials = added v.credentials (a ∷ []) })
  unfolding added
  added-kept v a secret fresh new u =
      IsUnshared-add_credential aes json keys v a fresh new.from_credentials new.from_enrollments u

  -- Two new rows, with different secrets, of which the first takes no traps.
  both-kept :
      (v : Vault) (a b : Credential) (secret second : Secret)
      → ((c : Credential) → Elem c v.credentials → c.id ≢ a.id)
      → ((c : Credential) → Elem c v.credentials → c.id ≢ b.id)
      → a.id ≢ b.id
      → (of_credential a).name ≡ none
      → secret ≢ second
      → IsNew aes json keys v a secret
      → IsNew aes json keys v b second
      → IsUnshared aes json keys v
      → IsUnshared aes json keys (record v { credentials = added v.credentials (a ∷ b ∷ []) })
  unfolding added
  both-kept v a b secret second fresh_a fresh_b differ silent other new_a new_b u =
      IsUnshared-add_credential aes json keys (record v { credentials = v.credentials ++ a ∷ [] }) b
        (λ c m. elim (Elem-snoc c a v.credentials m) [
          | inl e ↦ (λ i. differ (sym (ap (λ (x : Credential). x.id) e) ∙ i))
          | inr n ↦ fresh_b c n
        ])
        (λ c m. elim (Elem-snoc c a v.credentials m) [
          | inl e ↦
              subst (λ x. Apart aes json keys (of_credential b) (of_credential x)) (sym e) apart
          | inr n ↦ new_b.from_credentials c n
        ])
        new_b.from_enrollments (added-kept v a secret fresh_a new_a u)
    where
      apart : Apart aes json keys (of_credential b) (of_credential a)
      apart = record {
        secrets = λ s p q. other (
            sym (Opens-one aes json keys a.stored.envelope s secret q new_a.opens)
            ∙ Opens-one aes json keys b.stored.envelope s second p new_b.opens);
        names = λ n p q. let none_is : none ≡ some n = sym silent ∙ q in absurd (cc);
      }

  module _ (key : Text) (r : Random) (call : Call) (v : Vault)
      (is_called : call.crypto ≡ crypto_of aes json keys key r)
      (fresh_read : (c : Credential) → Elem c v.credentials → c.id ≢ call.read_id)
      (fresh_trap : (c : Credential) → Elem c v.credentials → c.id ≢ call.trap_id)
      (differ : call.read_id ≢ call.trap_id) where
    second-kept :
        (dto : OnboardDto) (sha1 : Bool) (secret : Secret) (e : Envelope) (ring : Keyring)
        (o : Option (SecretDto × Secret)) (rest : List Credential)
        → IsNew aes json keys v (read_row call dto e) secret
        → ring_of aes json keys key ≡ ring
        → trap_secret_of call.crypto sha1 secret dto.trap_credential ≡ ok o
        → checked_trap call o v ≡ ok tt
        → sealed_trap call ring o ≡ ok rest
        → IsUnshared aes json keys v
        → IsUnshared aes json keys
            (record v { credentials = added v.credentials (read_row call dto e ∷ rest) })
    second-kept dto sha1 secret e ring none rest new g made checked sealed u =
        subst
          (λ x.
            IsUnshared aes json keys
              (record v { credentials = added v.credentials (read_row call dto e ∷ x) }))
          (ok-injective sealed) (added-kept v (read_row call dto e) secret fresh_read new u)
    second-kept dto sha1 secret e ring (some (t, second)) rest new g made checked sealed u =
        let (good, other) =
          trap_secret_of-some call.crypto sha1 secret dto.trap_credential t second made in
        let (ring2, available, _) =
          bind-eq-ok (assert_secret_available call.crypto second (options_for none trap t) v) _
            checked in
        let (e2, is_sealed, h) =
          bind-eq-ok
            (encrypt_credential call.crypto.aes call.crypto.json call.trap_random second ring) _
            sealed in
        let (_, new2) =
          called-IsNew aes json keys call.crypto key r call.trap_random trap t sha1 second v ring2
            ring e2 (trap_row call t e2) is_called good refl refl available g is_sealed in
        subst
          (λ x.
            IsUnshared aes json keys
              (record v { credentials = added v.credentials (read_row call dto e ∷ x) }))
          (ok-injective h)
          (both-kept v (read_row call dto e) (trap_row call t e2) secret second fresh_read
            fresh_trap differ refl
            (λ q.
              let same =
                (same_iff (call.crypto.json.stringify secret) (call.crypto.json.stringify second)).1
                  (ap call.crypto.json.stringify q) in
              cc)
            new new2 u)

    credentials_of-kept :
        (dto : OnboardDto) (secrets : Secrets) (rows : List Credential)
        → secrets_of call.crypto dto ≡ ok secrets
        → credentials_of call dto secrets v ≡ ok rows
        → IsUnshared aes json keys v
        → IsUnshared aes json keys (record v { credentials = added v.credentials rows })
    unfolding credentials_of
    credentials_of-kept dto secrets rows made h u =
        let sha1 = or_false dto.config.compatibility_sha1 in
        let (ring, checked, h1) =
          bind-eq-ok
            (assert_secret_available call.crypto secrets.0
              (options_for none read dto.read_credential) v)
            _ h in
        let (second, h2) = seq-eq-ok (checked_trap call secrets.1 v) _ h1 in
        let sealing =
          encrypt_credential call.crypto.aes call.crypto.json call.crypto.random secrets.0 ring in
        let (e, sealed, h3) = bind-eq-ok (thrown sealing) _ h2 in
        let (rest, last, h4) = bind-eq-ok (thrown (sealed_trap call ring secrets.1)) _ h3 in
        let (good, good2) = secrets_of-made call.crypto dto secrets made in
        let g =
          ring-available aes json keys key r secrets.0 (options_for none read dto.read_credential) v
            ring
            (subst
              (λ (x : Crypto).
                assert_secret_available x secrets.0 (options_for none read dto.read_credential) v
                ≡ ok ring)
              is_called checked) in
        let (_, new) =
          called-IsNew aes json keys call.crypto key r call.crypto.random read dto.read_credential
            sha1 secrets.0 v ring ring e (read_row call dto e) is_called good refl refl checked g
            (thrown-ok sealing e sealed) in
        subst (λ x. IsUnshared aes json keys (record v { credentials = added v.credentials x }))
          (ok-injective h4)
          (second-kept dto sha1 secrets.0 e ring secrets.1 rest new g good2 second
            (thrown-ok (sealed_trap call ring secrets.1) rest last) u)

  pub onboard_device-kept :
      (key : Text) (r : Random) (call : Call) (dto : OnboardDto) (s t : Store)
      → call.crypto ≡ crypto_of aes json keys key r
      → ((c : Credential) → Elem c s.vault.credentials → c.id ≢ call.read_id)
      → ((c : Credential) → Elem c s.vault.credentials → c.id ≢ call.trap_id)
      → call.read_id ≢ call.trap_id
      → onboard_device call dto s ≡ ok t
      → IsUnshared aes json keys s.vault
      → IsUnshared aes json keys t.vault
  unfolding onboard_device onboard_checks onboard_transaction
  onboard_device-kept key r call dto s t k fresh_read fresh_trap differ h u =
      let (secrets, checks, h1) = bind-eq-ok (onboard_checks call dto s) _ h in
      let (_, c1) = seq-eq-ok call.permitted _ checks in
      let (_, c2) = guard_bind _ _ _ c1 in
      let (_, c3) =
        seq-eq-ok
          (validate_onboarding_assets call.models call.has_asset dto.type dto.model_id
            dto.front_asset_id)
          _ c2 in
      let (_, made) = seq-eq-ok (validate_onboarding_rack call.racks dto s.devices) _ c3 in
      let (_, h2) = seq-eq-ok (validate_onboarding_rack call.racks dto s.devices) _ h1 in
      let (_, h3) =
        guard_bind (not (any (is_managed_at dto.site_id dto.management_ip) s.devices)) _ _ h2 in
      let (rows, has_rows, h4) = bind-eq-ok (credentials_of call dto secrets s.vault) _ h3 in
      subst (λ (x : Store). IsUnshared aes json keys x.vault) (ok-injective h4)
        (credentials_of-kept key r call s.vault k fresh_read fresh_trap differ dto secrets rows made
          has_rows u)
