-- ===== src/Snmp/Service/Exclusive/Kept.antt =====
-- Every operation on credentials keeps the policy.
use management_app.Base.{
  any, ◌≡◌, ◌≢◌, refl, ◌∙◌, ap, inl, inr, String, Bool, true, not, Option, none, some, List, filter,
  find, Elem, Elem-of_filter, Elem-of_find, Bool-cases, Result, ok, bind-eq-ok, seq-eq-ok,
  guard_bind,
}
use mathlib.Core.Path.{subst}
use management_app.Text.{Text}
use management_app.Text.Sets.{same, same_iff}
use management_app.Snmp.Keyring.{
  Bytes, Cipher, Json, Secret, Keyring, Envelope, Random, encrypt_credential,
}
use management_app.Snmp.Credentials.{or_else}
use management_app.Snmp.Service.{
  is_other, assert_secret_available, is_of, put_credential, options_for, create_credential,
  delete_credential,
}
use management_app.Snmp.Service.Secrets.{
  Fault, thrown, SecretDto, Purpose, Credential, Vault, purpose_of, credential_secret, stored_of,
}
use management_app.Snmp.Service.Exclusive.{
  of_credential, of_enrollment, crypto_of, Apart, IsUnshared, new_holder, new-Apart_credential,
  new-Apart_enrollment,
}
use management_app.Snmp.Service.Exclusive.Rows.{
  IsUnshared-fewer, IsUnshared-add_credential, IsUnshared-change,
}
use management_app.Snmp.Service.Exclusive.Holders.{thrown-ok, credential-holder, is_of-purpose}

module _ (aes : Cipher) (json : Json) (keys : List (Text × Bytes)) where
  -- The rows of a credential that is checked, in both cases of `upsert`.
  put_credential-kept :
      (key id device : Text) (r : Random) (p : Purpose) (dto : SecretDto) (sha1 : Bool)
      (secret : Secret) (v : Vault) (previous : Option Credential) (ring : Keyring) (e : Envelope)
      → IsUnshared aes json keys v
      → ((c : Credential) → Elem c v.credentials → c.id ≢ id)
      → find (is_of device p) v.credentials ≡ previous
      → credential_secret dto sha1 ≡ ok secret
      → assert_secret_available
          (crypto_of aes json keys key r)
          secret
          (options_for previous p dto)
          v
        ≡ ok ring
      → encrypt_credential aes json r secret ring ≡ ok e
      → IsUnshared aes json keys
          (record v { credentials = put_credential id device p dto e previous v.credentials })
  unfolding put_credential
  put_credential-kept key id device r p dto sha1 secret v none ring e u fresh found h checked
        sealed =
      IsUnshared-add_credential aes json keys v new fresh
        (λ c m.
          subst (λ x. Apart aes json keys x (of_credential c)) holds
            (new-Apart_credential aes json keys key r secret (options_for none p dto) v ring e
              checked sealed c m refl))
        (λ c m.
          subst (λ x. Apart aes json keys x (of_enrollment c)) holds
            (new-Apart_enrollment aes json keys key r secret (options_for none p dto) v ring e
              checked sealed c m refl))
        u
    where
      new : Credential
      new = record {
        id = id;
        device_id = device;
        purpose = p;
        label = dto.label;
        stored = stored_of dto e;
        enabled = true;
        last_test_status = none;
      }

      holds :
          new_holder aes json keys key r secret (options_for none p dto) v ring e checked sealed
          ≡ of_credential new
      holds = credential-holder new p dto sha1 secret e none h refl refl
  put_credential-kept key id device r p dto sha1 secret v (some old) ring e u fresh found h checked
        sealed =
      IsUnshared-change aes json keys f old.id v (λ b i. i)
        (λ b c m i n k.
          subst (λ x. Apart aes json keys x (of_credential c)) (holds b m i)
            (new-Apart_credential aes json keys key r secret (options_for (some old) p dto) v ring e
              checked sealed c n (differs c k)))
        (λ b c m i n.
          subst (λ x. Apart aes json keys x (of_enrollment c)) (holds b m i)
            (new-Apart_enrollment aes json keys key r secret (options_for (some old) p dto) v ring e
              checked sealed c n refl))
        u
    where
      f : Credential → Credential
      f c = record c {
        label = or_else dto.label c.label;
        stored = stored_of dto e;
        enabled = true;
        last_test_status = none;
      }

      differs : (c : Credential) → c.id ≢ old.id → is_other (some old.id) c.id ≡ true
      differs c k = elim (Bool-cases (same c.id old.id)) [
        | inl s ↦ absurd (k ((same_iff c.id old.id).0 s))
        | inr s ↦ rw s refl
      ]

      holds :
          (b : Credential)
          → Elem b v.credentials
          → b.id ≡ old.id
          → new_holder aes json keys key r secret
              (options_for (some old) p dto)
              v
              ring
              e
              checked
              sealed
            ≡ of_credential (f b)
      holds b m i =
          let (n, q) = Elem-of_find (is_of device p) old v.credentials found in
          let one = u.one b old m n i in
          credential-holder (f b) p dto sha1 secret e (some old) h
            (ap (λ (x : Credential). x.purpose) one ∙ is_of-purpose device p old q) refl

  pub create_credential-kept :
      (key id device : Text) (r : Random) (permitted : Result Fault (Unit {0})) (sha1 : Bool)
      (purpose : String) (dto : SecretDto) (v w : Vault)
      → IsUnshared aes json keys v
      → ((c : Credential) → Elem c v.credentials → c.id ≢ id)
      → create_credential (crypto_of aes json keys key r) permitted sha1 id device purpose dto v
        ≡ ok w
      → IsUnshared aes json keys w
  unfolding create_credential
  create_credential-kept key id device r permitted sha1 purpose dto v w u fresh h =
      let (allowed, h1) = seq-eq-ok permitted _ h in
      let (p, valid, h2) = bind-eq-ok (purpose_of purpose) _ h1 in
      let (secret, good, h3) = bind-eq-ok (credential_secret dto sha1) _ h2 in
      let previous = find (is_of device p) v.credentials in
      let (ring, checked, h4) =
        bind-eq-ok
          (assert_secret_available (crypto_of aes json keys key r) secret
            (options_for previous p dto) v)
          _ h3 in
      let (e, sealed, h5) = bind-eq-ok (thrown (encrypt_credential aes json r secret ring)) _ h4 in
      let done : record v { credentials = put_credential id device p dto e previous v.credentials }
          ≡ w =
        cc in
      subst (IsUnshared aes json keys) done (
        put_credential-kept key id device r p dto sha1 secret v previous ring e u fresh refl good
          checked (thrown-ok (encrypt_credential aes json r secret ring) e sealed))

  pub delete_credential-kept :
      (permitted : Result Fault (Unit {0})) (device : Text) (purpose : String) (v w : Vault)
      → IsUnshared aes json keys v
      → delete_credential permitted device purpose v ≡ ok w
      → IsUnshared aes json keys w
  unfolding delete_credential
  delete_credential-kept permitted device purpose v w u h =
      let (p, valid, h1) = bind-eq-ok (purpose_of purpose) _ h in
      let (allowed, h2) = seq-eq-ok permitted _ h1 in
      let (known, h3) = guard_bind (any (is_of device p) v.credentials) _ _ h2 in
      let left = filter (λ c. not (is_of device p c)) v.credentials in
      let done : record v { credentials = left } ≡ w = cc in
      subst (IsUnshared aes json keys) done (
        IsUnshared-fewer aes json keys v (record v { credentials = left })
          (λ c m. (Elem-of_filter (λ c. not (is_of device p c)) c v.credentials m).0) (λ e m. m) u)
