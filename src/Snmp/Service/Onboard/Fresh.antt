-- ===== src/Snmp/Service/Onboard/Fresh.antt =====
-- A row that is sealed after the check of snmp.service.ts is apart from the rows that were there.
use management_app.Base.{
  ◌≡◌, refl, sym, ◌∙◌, ap, Result-cases, inl, inr, arith, Bool, not, none, List, [], ◌∷◌, Elem, ok,
  seq-eq-ok, guard_bind,
}
use mathlib.Core.Path.{subst}
use management_app.Text.{Text}
use management_app.Snmp.Keyring.{
  Bytes, Cipher, Json, Secret, Keyring, Envelope, Random, decrypt_credential, encrypt_credential,
}
use management_app.Snmp.Credentials.{Stored}
use management_app.Snmp.Traps.Store.{Enrollment}
use management_app.Snmp.Service.{
  Options, is_user_taken, envelopes, assert_all_differ, assert_secret_available, options_for,
}
use management_app.Snmp.Service.Secrets.{
  Purpose, Credential, Vault, SecretDto, Crypto, credential_secret, stored_of,
}
use management_app.Snmp.Service.Exclusive.{
  of_credential, of_enrollment, ring_of, crypto_of, Opens, Opens-new, Apart, new-Apart_credential,
  new-Apart_enrollment,
}
use management_app.Snmp.Service.Exclusive.Holders.{stored-holder, credential-holder}

module _ (aes : Cipher) (json : Json) (keys : List (Text × Bytes)) where
  differ-any_random :
      (key : Text) (r q : Random) (ring : Keyring) (secret : Secret) (es : List Envelope)
      → assert_all_differ (crypto_of aes json keys key r) ring secret es
        ≡ assert_all_differ (crypto_of aes json keys key q) ring secret es
  unfolding assert_all_differ
  differ-any_random key r q ring secret [] = refl
  differ-any_random key r q ring secret (e ∷ es) =
      let again = differ-any_random key r q ring secret es in
      elim (Result-cases (decrypt_credential aes json e ring)) [
        | inl (s, k) ↦ ground arith
        | inr (f, k) ↦ ground arith
      ]

  available-any_random :
      (key : Text) (r q : Random) (secret : Secret) (o : Options) (v : Vault) (ring : Keyring)
      → assert_secret_available (crypto_of aes json keys key r) secret o v ≡ ok ring
      → assert_secret_available (crypto_of aes json keys key q) secret o v ≡ ok ring
  unfolding assert_secret_available
  available-any_random key r q secret o v ring h =
      rw (differ-any_random key r q (ring_of aes json keys key) secret (envelopes o v)) at h

  -- A new row, sealed with random bytes of its own, is apart from those that were there.
  pub record IsNew (v : Vault) (a : Credential) (secret : Secret) : Type 0 where
    pub from_credentials :
        (c : Credential)
        → Elem c v.credentials
        → Apart aes json keys (of_credential a) (of_credential c)
    pub from_enrollments :
        (c : Enrollment)
        → Elem c v.enrollments
        → Apart aes json keys (of_credential a) (of_enrollment c)
    pub opens : Opens aes json keys a.stored.envelope secret

  row-IsNew :
      (key : Text) (r q : Random) (p : Purpose) (dto : SecretDto) (sha1 : Bool) (secret : Secret)
      (v : Vault) (ring : Keyring) (e : Envelope) (a : Credential)
      → credential_secret dto sha1 ≡ ok secret
      → a.purpose ≡ p
      → a.stored ≡ stored_of dto e
      → assert_secret_available (crypto_of aes json keys key r) secret (options_for none p dto) v
        ≡ ok ring
      → encrypt_credential aes json q secret ring ≡ ok e
      → IsNew v a secret
  row-IsNew key r q p dto sha1 secret v ring e a made i st checked sealed =
      let again = available-any_random key r q secret (options_for none p dto) v ring checked in
      let holds = credential-holder a p dto sha1 secret e none made i st in
      record {
        from_credentials = λ c m.
            subst (λ x. Apart aes json keys x (of_credential c)) holds
              (new-Apart_credential aes json keys key q secret (options_for none p dto) v ring e
                again sealed c m refl);
        from_enrollments = λ c m.
            subst (λ x. Apart aes json keys x (of_enrollment c)) holds
              (new-Apart_enrollment aes json keys key q secret (options_for none p dto) v ring e
                again sealed c m refl);
        opens =
            subst (λ x. Opens aes json keys x secret)
              (sym (ap (λ (x : Stored). x.envelope) st ∙ (stored-holder dto e).0))
              (Opens-new aes json keys key q secret (options_for none p dto) v ring e again sealed);
      }

  pub ring-available :
      (key : Text) (r : Random) (secret : Secret) (o : Options) (v : Vault) (ring : Keyring)
      → assert_secret_available (crypto_of aes json keys key r) secret o v ≡ ok ring
      → ring_of aes json keys key ≡ ring
  unfolding assert_secret_available
  ring-available key r secret o v ring h =
      let (free, h1) = guard_bind (not (is_user_taken o v)) _ _ h in
      let (differ, h2) =
        seq-eq-ok
          (assert_all_differ (crypto_of aes json keys key r) (ring_of aes json keys key) secret
            (envelopes o v))
          _ h1 in
      cc

  -- The same for a call that is given this cryptography.
  pub called-IsNew :
      (k : Crypto) (key : Text) (r q : Random) (p : Purpose) (dto : SecretDto) (sha1 : Bool)
      (secret : Secret) (v : Vault) (ring other : Keyring) (e : Envelope) (a : Credential)
      → k ≡ crypto_of aes json keys key r
      → credential_secret dto sha1 ≡ ok secret
      → a.purpose ≡ p
      → a.stored ≡ stored_of dto e
      → assert_secret_available k secret (options_for none p dto) v ≡ ok ring
      → ring_of aes json keys key ≡ other
      → encrypt_credential k.aes k.json q secret other ≡ ok e
      → (ring_of aes json keys key ≡ ring) × IsNew v a secret
  called-IsNew k key r q p dto sha1 secret v ring other e a c made i st checked is_other sealed =
      let checked_too =
        subst
          (λ (x : Crypto). assert_secret_available x secret (options_for none p dto) v ≡ ok ring) c
          checked in
      let same_ring = ring-available key r secret (options_for none p dto) v ring checked_too in
      let sealed_too =
        subst (λ (x : Crypto). encrypt_credential x.aes x.json q secret other ≡ ok e) c sealed in
      (
        same_ring,
        row-IsNew key r q p dto sha1 secret v ring e a made i st checked_too (
            subst (λ x. encrypt_credential aes json q secret x ≡ ok e) (sym is_other ∙ same_ring)
              sealed_too),
      )
