-- ===== src/Snmp/Service.antt =====
-- The vault of apps/api/src/snmp/snmp.service.ts: a secret is taken where no other record
-- has it. `permitted` is the answer of the access check of a call.
pub mod Secrets
pub mod Enrollments
pub mod Subnets
pub mod Accept
pub mod Rotation
pub mod Schedule
pub mod Onboard
pub mod Jobs
pub mod Drifts
pub mod Writes
pub mod Exclusive
mod Tests
use management_app.Base.{
  ℕ, ◌+◌, ◌≡◌, String, Bool, true, false, not, ◌&&◌, ◌||◌, Option, none, some, List, [], ◌∷◌, ◌++◌,
  map, filter, find, any, is_empty, length, leb, ◌==◌, if◌then◌else◌, Result, ok, err, ◌>>=◌, ◌>>◌,
  guard, or_throw,
}
use management_app.Base.HttpError.{HttpError, bad_request, not_found, conflict}
use management_app.Text.{Text, codes}
use management_app.Text.Sets.{same}
use management_app.Collections.Texts.{includes}
use management_app.Snmp.Keyring.{
  Cipher, Json, Secret, Keyring, Envelope, Random, Failure, encrypt_credential, decrypt_credential,
}
use management_app.Snmp.Credentials.{Version, v2c, v3, Stored, or_else}
use management_app.Snmp.Traps.Store.{Enrollment}
use management_app.Snmp.Service.Secrets.{
  Fault, http, crypto, thrown, Purpose, read, write, trap, same_purpose, Credential, Vault,
  SecretDto, Crypto, given, purpose_of, credential_secret, stored_of,
}

-- `id !== skipped`
abbrev pub is_other : Option Text → Text → Bool
is_other none id = true
is_other (some skipped) id = not (same id skipped)

-- The user name under which traps come, of a credential for traps or an enrollment of version 3.
abbrev pub user_of : Stored → Option Text
user_of s = elim s.version [ v2c ↦ none | v3 ↦ s.username ]

abbrev pub trap_user : Credential → Option Text
trap_user c = elim c.purpose [ trap ↦ user_of c.stored | read ↦ none | write ↦ none ]

abbrev pub is_name : Text → Option Text → Bool
is_name name none = false
is_name name (some t) = same t name

pub record Options : Type 0 where
  pub skip_credential_id : Option Text
  pub skip_enrollment_id : Option Text
  pub v3_trap_username : Option Text

abbrev pub other_credentials : Options → Vault → List Credential
other_credentials o v =
    filter (λ (c : Credential). is_other o.skip_credential_id c.id) v.credentials

abbrev pub other_enrollments : Options → Vault → List Enrollment
other_enrollments o v =
    filter (λ (e : Enrollment). is_other o.skip_enrollment_id e.id) v.enrollments

unfoldable pub is_user_taken : Options → Vault → Bool
is_user_taken o v = elim (given o.v3_trap_username) [
  | none ↦ false
  | some name ↦
      any (λ c. is_name name (trap_user c)) (other_credentials o v)
      || any (λ (e : Enrollment). is_name name (user_of e.stored)) (other_enrollments o v)
]

abbrev pub taken : String → Fault
taken code = http (conflict code)

-- The loop over the other records.
unfoldable pub assert_all_differ :
    Crypto → Keyring → Secret → List Envelope → Result Fault (Unit {0})
assert_all_differ k ring secret [] = ok tt
assert_all_differ k ring secret (e ∷ es) =
    let rest = assert_all_differ k ring secret es in
    elim (decrypt_credential k.aes k.json e ring) [
      | err f ↦ err (taken "SNMP_EXISTING_CREDENTIAL_UNAVAILABLE")
      | ok existing ↦
          if same (k.json.stringify existing) (k.json.stringify secret)
          then err (taken "SNMP_CREDENTIAL_REUSE")
          else rest
    ]

abbrev pub envelopes : Options → Vault → List Envelope
envelopes o v =
    map (λ (c : Credential). c.stored.envelope) (other_credentials o v)
    ++ map (λ (e : Enrollment). e.stored.envelope) (other_enrollments o v)

-- `keyring`
abbrev pub keyring_of : Crypto → Result Fault Keyring
keyring_of k = elim k.keyring [ ok ring ↦ ok ring | err e ↦ err (taken "SNMP_KEYRING_UNAVAILABLE") ]

unfoldable pub assert_secret_available : Crypto → Secret → Options → Vault → Result Fault Keyring
unfolding is_user_taken assert_all_differ
assert_secret_available k secret o v = do
  ring ← keyring_of k
  guard (not (is_user_taken o v)) (taken "SNMP_TRAP_USERNAME_CONFLICT")
  assert_all_differ k ring secret (envelopes o v)
  ok ring

abbrev pub is_of : Text → Purpose → Credential → Bool
is_of device p c = same c.device_id device && same_purpose c.purpose p

abbrev pub id_of : Option Credential → Option Text
id_of none = none
id_of (some c) = some c.id

-- `upsert`: the row that was found is changed, or a new one is made.
unfoldable pub put_credential :
    Text
    → Text
    → Purpose
    → SecretDto
    → Envelope
    → Option Credential
    → List Credential
    → List Credential
put_credential id device p dto e none cs =
    cs
    ++ record {
      id = id;
      device_id = device;
      purpose = p;
      label = dto.label;
      stored = stored_of dto e;
      enabled = true;
      last_test_status = none;
    }
      ∷ []
put_credential id device p dto e (some old) cs =
    map
      (λ (c : Credential).
        if same c.id old.id
        then record c {
          label = or_else dto.label c.label;
          stored = stored_of dto e;
          enabled = true;
          last_test_status = none;
        }
        else c)
      cs

abbrev pub options_for : Option Credential → Purpose → SecretDto → Options
options_for previous p dto = record {
  skip_credential_id = id_of previous;
  skip_enrollment_id = none;
  v3_trap_username = elim p [
    | trap ↦ elim dto.version [ v3 ↦ dto.username | v2c ↦ none ]
    | read ↦ none
    | write ↦ none
  ];
}

unfoldable pub create_credential :
    Crypto
    → Result Fault (Unit {0})
    → Bool
    → Text
    → Text
    → String
    → SecretDto
    → Vault
    → Result Fault Vault
unfolding purpose_of credential_secret put_credential
create_credential k permitted compatibility_sha1 id device purpose dto v = do
  permitted
  p ← purpose_of purpose
  secret ← credential_secret dto compatibility_sha1
  let previous = find (is_of device p) v.credentials
  ring ← assert_secret_available k secret (options_for previous p dto) v
  e ← thrown (encrypt_credential k.aes k.json k.random secret ring)
  ok (record v { credentials = put_credential id device p dto e previous v.credentials })

unfoldable pub delete_credential :
    Result Fault (Unit {0}) → Text → String → Vault → Result Fault Vault
unfolding purpose_of
delete_credential permitted device purpose v = do
  p ← purpose_of purpose
  permitted
  guard (any (is_of device p) v.credentials) (http (not_found "Credencial SNMP não encontrada"))
  ok (record v { credentials = filter (λ c. not (is_of device p c)) v.credentials })
