-- ===== src/Snmp/Service/Rotation.antt =====
-- `rotateCredentials` of snmp.service.ts: what is sealed under an old key is sealed under the active one.
-- A row that cannot be opened ends the loop; the rows before it keep their new envelope.
pub mod Same
pub mod Loop
pub mod Opened
pub mod Tables
mod Tests
use management_app.Base.{
  ℕ, ◌+◌, ◌≡◌, Bool, true, false, Option, List, [], ◌∷◌, map, if◌then◌else◌, Result, ok, err,
}
use management_app.Text.{Text}
use management_app.Text.Sets.{same}
use management_app.Snmp.Keyring.{Bytes, Cipher, Keyring, Envelope, Failure, rewrap_credential}
use management_app.Snmp.Traps.Store.{Enrollment}
use management_app.Snmp.Service.{keyring_of}
use management_app.Snmp.Service.Secrets.{Fault, crypto, Credential, Vault, Crypto}

-- A kind of rows: their id and envelope, and the update of an envelope.
pub record Kind (A : Type 0) : Type 0 where
  pub id : A → Text
  pub envelope : A → Envelope
  pub put : Envelope → A → A

-- `data: { wrappedDek, wrapIv, wrapAuthTag, keyId }`
abbrev pub wrapped_by : Envelope → Envelope → Envelope
wrapped_by e old = record old {
  wrapped_dek = e.wrapped_dek;
  wrap_iv = e.wrap_iv;
  wrap_auth_tag = e.wrap_auth_tag;
  key_id = e.key_id;
}

abbrev pub updated : {A : Type 0} → Kind A → Text → Envelope → A → A
updated kind id e a = if same (kind.id a) id then kind.put (wrapped_by e (kind.envelope a)) a else a

abbrev pub one_more : Result Failure ℕ → Result Failure ℕ
one_more (ok n) = ok (n + 1)
one_more (err e) = err e

-- The loop over the rows that were read; each update is of the table. `ivs` are the new vectors.
unfoldable pub rotate_rows :
    {A : Type 0}
    → Kind A
    → Cipher
    → (Text → Bytes)
    → Keyring
    → List A
    → List A
    → List A × Result Failure ℕ
rotate_rows kind aes ivs ring [] table = (table, ok 0)
rotate_rows kind aes ivs ring (a ∷ rows) table =
    elim (same (kind.envelope a).key_id ring.active_key_id) [
      | true ↦ rotate_rows kind aes ivs ring rows table
      | false ↦ elim (rewrap_credential aes (ivs (kind.id a)) (kind.envelope a) ring) [
        | err e ↦ (table, err e)
        | ok e ↦
            let rest =
              rotate_rows kind aes ivs ring rows (map (updated kind (kind.id a) e) table) in
            (rest.0, one_more rest.1)
      ]
    ]

-- A row of `NetAppIntegration`, of which only the envelope is used here.
pub record Integration : Type 0 where
  pub id : Text
  pub envelope : Envelope

abbrev pub of_credentials : Kind Credential
of_credentials = record {
  id = λ (c : Credential). c.id;
  envelope = λ (c : Credential). c.stored.envelope;
  put = λ e (c : Credential). record c { stored = record c.stored { envelope = e } };
}

abbrev pub of_enrollments : Kind Enrollment
of_enrollments = record {
  id = λ (c : Enrollment). c.id;
  envelope = λ (c : Enrollment). c.stored.envelope;
  put = λ e (c : Enrollment). record c { stored = record c.stored { envelope = e } };
}

abbrev pub of_integrations : Kind Integration
of_integrations = record {
  id = λ (c : Integration). c.id;
  envelope = λ (c : Integration). c.envelope;
  put = λ e (c : Integration). record c { envelope = e };
}

pub record Safe : Type 0 where
  pub vault : Vault
  pub integrations : List Integration

abbrev pub thrown_count : Result Failure ℕ → ℕ → Result Fault ℕ
thrown_count (ok n) m = ok (m + n)
thrown_count (err e) m = err (crypto e)

abbrev pub rotate_integrations :
    Cipher → (Text → Bytes) → Keyring → Vault → ℕ → List Integration → Safe × Result Fault ℕ
rotate_integrations aes ivs ring v n is =
    let r = rotate_rows of_integrations aes ivs ring is is in
    (record { vault = v; integrations = r.0 }, thrown_count r.1 n)

abbrev pub rotate_enrollments : Cipher → (Text → Bytes) → Keyring → Safe → ℕ → Safe × Result Fault ℕ
rotate_enrollments aes ivs ring s n =
    let r = rotate_rows of_enrollments aes ivs ring s.vault.enrollments s.vault.enrollments in
    let v : Vault = record s.vault { enrollments = r.0 } in
    elim r.1 [
      | err e ↦ (record s { vault = v }, err (crypto e))
      | ok m ↦ rotate_integrations aes ivs ring v (n + m) s.integrations
    ]

-- The tables as they are left, and how many rows were rotated or what was thrown.
unfoldable pub rotate_credentials : Crypto → (Text → Bytes) → Safe → Safe × Result Fault ℕ
unfolding rotate_rows
rotate_credentials k ivs s = elim (keyring_of k) [
  | err e ↦ (s, err e)
  | ok ring ↦
      let r = rotate_rows of_credentials k.aes ivs ring s.vault.credentials s.vault.credentials in
      let t : Safe = record s { vault = record s.vault { credentials = r.0 } } in
      elim r.1 [ err e ↦ (t, err (crypto e)) | ok n ↦ rotate_enrollments k.aes ivs ring t n ]
]
