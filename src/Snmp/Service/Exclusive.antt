-- ===== src/Snmp/Service/Exclusive.antt =====
-- The policy of snmp.service.ts that no two rows of the vault hold the same secret, nor take traps
-- under the same user name. The keys of the keyring stay; the active one may change.
pub mod Rows
pub mod Holders
pub mod Kept
pub mod Enrolled
pub mod Steps
use management_app.Base.{
  ◌≡◌, ◌≢◌, refl, sym, inl, inr, arith, Bool, true, false, not, ◌&&◌, ◌||◌, Option, none, some,
  List, [], ◌∷◌, ◌++◌, map, filter, any, Elem, Elem-append, Elem-of_map, Elem-map, Elem-of_filter,
  Elem-filter, Elem-append_left, Elem-append_right, any-false, Bool-cases, if◌then◌else◌, Result,
  Result-cases, ok, err, ◌>>=◌, ◌>>◌, guard, guard_bind, bind-eq-ok, seq-eq-ok,
}
use mathlib.Core.Path.{subst, ap}
use management_app.Text.{Text}
use management_app.Text.Sets.{same, same_iff}
use management_app.Snmp.Keyring.{
  Bytes, Cipher, Json, Secret, Keyring, Envelope, Random, decrypt_credential, encrypt_credential,
}
use management_app.Snmp.Keyring.Rewrap.{decrypt-encrypt}
use management_app.Snmp.Traps.Store.{Enrollment}
use management_app.Snmp.Service.{
  is_other, user_of, trap_user, is_name, Options, other_credentials, other_enrollments,
  is_user_taken, assert_all_differ, envelopes, assert_secret_available,
}
use management_app.Snmp.Service.Secrets.{Credential, Vault, Crypto, given, trap}

-- What a row holds: a sealed secret, and the user name under which it takes traps.
pub record Held : Type 0 where
  pub envelope : Envelope
  pub name : Option Text

abbrev pub of_credential : Credential → Held
of_credential c = record { envelope = c.stored.envelope; name = trap_user c }

abbrev pub of_enrollment : Enrollment → Held
of_enrollment e = record { envelope = e.stored.envelope; name = user_of e.stored }

name_is : (name : Text) (o : Option Text) → o ≡ some name → is_name name o ≡ true
name_is name none h = cc
name_is name (some t) h = (same_iff t name).1 (cc)

pub given-some : (o : Option Text) (t : Text) → given o ≡ some t → o ≡ some t
given-some none t h = cc
given-some (some u) t h = ground arith

module _ (aes : Cipher) (json : Json) (keys : List (Text × Bytes)) where
  abbrev pub ring_of : Text → Keyring
  ring_of id = record { active_key_id = id; keys = keys }

  abbrev pub crypto_of : Text → Random → Crypto
  crypto_of id r = record { aes = aes; json = json; keyring = ok (ring_of id); random = r }

  abbrev pub Opens : Envelope → Secret → Type 0
  Opens e s = decrypt_credential aes json e (ring_of []) ≡ ok s

  -- No secret opens from both, and no name is that of both.
  pub record Apart (h g : Held) : Type 0 where
    pub secrets : (s : Secret) → Opens h.envelope s → ¬ Opens g.envelope s
    pub names : (n : Text) → h.name ≡ some n → g.name ≢ some n

  pub Apart-sym : (h g : Held) → Apart h g → Apart g h
  Apart-sym h g a = record { secrets = λ s p q. a.secrets s q p; names = λ n p q. a.names n q p }

  pub record IsUnshared (v : Vault) : Type 0 where
    pub one : (c d : Credential) → Elem c v.credentials → Elem d v.credentials → c.id ≡ d.id → c ≡ d
    pub single :
        (e f : Enrollment) → Elem e v.enrollments → Elem f v.enrollments → e.id ≡ f.id → e ≡ f
    pub credentials :
        (c d : Credential)
        → Elem c v.credentials
        → Elem d v.credentials
        → c.id ≢ d.id
        → Apart (of_credential c) (of_credential d)
    pub across :
        (c : Credential) (e : Enrollment)
        → Elem c v.credentials
        → Elem e v.enrollments
        → Apart (of_credential c) (of_enrollment e)
    pub enrollments :
        (e f : Enrollment)
        → Elem e v.enrollments
        → Elem f v.enrollments
        → e.id ≢ f.id
        → Apart (of_enrollment e) (of_enrollment f)

  pub decrypt-any_active :
      (id : Text) (e : Envelope)
      → decrypt_credential aes json e (ring_of id) ≡ decrypt_credential aes json e (ring_of [])
  unfolding decrypt_credential
  decrypt-any_active id e = refl

  pub Opens-one : (e : Envelope) (s t : Secret) → Opens e s → Opens e t → s ≡ t
  Opens-one e s t p q = cc

  -- After the loop, none of the envelopes opens to the secret.
  assert_all_differ-Elem :
      (id : Text) (r : Random) (secret : Secret) (es : List Envelope) (e : Envelope)
      → assert_all_differ (crypto_of id r) (ring_of id) secret es ≡ ok tt
      → Elem e es
      → ¬ Opens e secret
  unfolding assert_all_differ
  assert_all_differ-Elem id r secret [] e h m o = absurd m
  assert_all_differ-Elem id r secret (f ∷ es) e h m o =
      elim (Result-cases (decrypt_credential aes json f (ring_of id))) [
        | inr (g, d) ↦ absurd (ground arith)
        | inl (existing, d) ↦
            elim (Bool-cases (same (json.stringify existing) (json.stringify secret))) [
              | inl reused ↦ absurd (ground arith)
              | inr fresh ↦
                  let rest : assert_all_differ (crypto_of id r) (ring_of id) secret es ≡ ok tt =
                    ground arith in
                  elim m [
                    | inl x ↦
                        let p : Opens f existing = ground (arith, decrypt-any_active id f) in
                        let s = Opens-one f existing secret p (subst (λ y. Opens y secret) x o) in
                        let t =
                          (same_iff (json.stringify existing) (json.stringify secret)).1
                            (ap json.stringify s) in
                        cc
                    | inr n ↦ assert_all_differ-Elem id r secret es e rest n o
                  ]
            ]
      ]

  -- What a check that passes has seen: the other rows.
  module _ (id : Text) (r : Random) (secret : Secret) (o : Options) (v : Vault) (ring : Keyring)
      (e : Envelope) (checked : assert_secret_available (crypto_of id r) secret o v ≡ ok ring)
      (encrypted : encrypt_credential aes json r secret ring ≡ ok e) where
    abbrev pub new_holder : Held
    new_holder = record { envelope = e; name = given o.v3_trap_username }

    available :
        (is_user_taken o v ≡ false)
        × (assert_all_differ (crypto_of id r) (ring_of id) secret (envelopes o v) ≡ ok tt)
        × (ring_of id ≡ ring)
    unfolding assert_secret_available
    available =
        let (free, h) = guard_bind (not (is_user_taken o v)) _ _ checked in
        let (differ, k) =
          seq-eq-ok (assert_all_differ (crypto_of id r) (ring_of id) secret (envelopes o v)) _ h in
        (ground arith, differ, cc)

    pub Opens-new : Opens e secret
    Opens-new =
        decrypt-encrypt aes json r secret (ring_of id) (ring_of []) e
          (subst (λ k. encrypt_credential aes json r secret k ≡ ok e) (sym available.2) encrypted)
          refl

    new-Apart :
        (g : Held)
        → ((n : Text) → given o.v3_trap_username ≡ some n → g.name ≢ some n)
        → Elem g.envelope (envelopes o v)
        → Apart new_holder g
    new-Apart g other m = record {
      secrets = λ s p q.
          let same_secret = Opens-one e s secret p Opens-new in
          assert_all_differ-Elem id r secret (envelopes o v) g.envelope available.1 m
            (rw same_secret at q);
      names = other;
    }

    free_names :
        (n : Text)
        → given o.v3_trap_username ≡ some n
        → (any (λ c. is_name n (trap_user c)) (other_credentials o v) ≡ false)
          × (any (λ (f : Enrollment). is_name n (user_of f.stored)) (other_enrollments o v) ≡ false)
    unfolding is_user_taken
    free_names n h = let free = available.0 in (ground arith, ground arith)

    pub new-Apart_credential :
        (c : Credential)
        → Elem c v.credentials
        → is_other o.skip_credential_id c.id ≡ true
        → Apart new_holder (of_credential c)
    new-Apart_credential c m other =
        let k =
          Elem-filter (λ (d : Credential). is_other o.skip_credential_id d.id) c v.credentials m
            other in
        new-Apart (of_credential c)
          (λ n h g.
            let free =
              any-false (λ d. is_name n (trap_user d)) c (other_credentials o v) (free_names n h).0
                k in
            let taken = name_is n (trap_user c) g in cc)
          (Elem-append_left c.stored.envelope
            (map (λ (d : Credential). d.stored.envelope) (other_credentials o v)) _
            (Elem-map (λ (d : Credential). d.stored.envelope) c (other_credentials o v) k))

    pub new-Apart_enrollment :
        (c : Enrollment)
        → Elem c v.enrollments
        → is_other o.skip_enrollment_id c.id ≡ true
        → Apart new_holder (of_enrollment c)
    new-Apart_enrollment c m other =
        let k =
          Elem-filter (λ (d : Enrollment). is_other o.skip_enrollment_id d.id) c v.enrollments m
            other in
        new-Apart (of_enrollment c)
          (λ n h g.
            let free =
              any-false (λ (d : Enrollment). is_name n (user_of d.stored)) c (other_enrollments o v)
                (free_names n h).1 k in
            let taken = name_is n (user_of c.stored) g in cc)
          (Elem-append_right c.stored.envelope
            (map (λ (d : Credential). d.stored.envelope) (other_credentials o v)) _
            (Elem-map (λ (d : Enrollment). d.stored.envelope) c (other_enrollments o v) k))
