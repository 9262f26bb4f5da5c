-- ===== src/Snmp/Service/Secrets.antt =====
-- The rows of the vault, and the secret that a request of snmp.service.ts carries.
use management_app.Base.{
  String, Bool, true, false, not, ◌&&◌, ◌||◌, Option, none, some, List, [], ◌∷◌, is_empty, length,
  leb, ◌==◌, if◌then◌else◌, Result, ok, err, ◌>>=◌, ◌>>◌, guard, or_throw,
}
use management_app.Base.HttpError.{HttpError, bad_request, not_found}
use management_app.Text.{Text, codes}
use management_app.Text.Sets.{same}
use management_app.Collections.Texts.{includes}
use management_app.Snmp.Keyring.{Cipher, Json, Secret, Keyring, Envelope, Random, Failure}
use management_app.Snmp.Credentials.{Version, v2c, v3, Stored}
use management_app.Snmp.Traps.Store.{Enrollment}

-- What a call throws: an HTTP exception, or an error of the cryptography.
pub data Fault : Type 0 where
  http : HttpError → Fault
  crypto : Failure → Fault

abbrev pub thrown : {A : Type 0} → Result Failure A → Result Fault A
thrown (ok a) = ok a
thrown (err e) = err (crypto e)

-- `SnmpCredentialPurpose`
pub data Purpose : Type 0 where
  read write trap : Purpose

abbrev pub same_purpose : Purpose → Purpose → Bool
same_purpose read read = true
same_purpose write write = true
same_purpose trap trap = true
same_purpose _ _ = false

-- A row of `SnmpCredential`.
pub record Credential : Type 0 where
  pub id : Text
  pub device_id : Text
  pub purpose : Purpose
  pub label : Option Text
  pub stored : Stored
  pub enabled : Bool
  pub last_test_status : Option String

pub record Vault : Type 0 where
  pub credentials : List Credential
  pub enrollments : List Enrollment

-- `SnmpCredentialSecretDto`
pub record SecretDto : Type 0 where
  pub version : Version
  pub label : Option Text
  pub username : Option Text
  pub auth_protocol : Option Text
  pub priv_protocol : Option Text
  pub community : Option Text
  pub auth_key : Option Text
  pub priv_key : Option Text

-- The cryptography that a call uses, with the keyring that `loadKeyring` finds and its random bytes.
pub record Crypto : Type 0 where
  pub aes : Cipher
  pub json : Json
  pub keyring : Result Failure Keyring
  pub random : Random

-- `device`: the access check, the row and its type.
abbrev pub network_types : List String
network_types = "SWITCH" ∷ "ROUTER" ∷ "FIREWALL" ∷ []

unfoldable pub assert_network_device :
    Result HttpError (Unit {0}) → Option String → Result Fault (Unit {0})
assert_network_device (err e) type = err (http e)
assert_network_device (ok allowed) none = err (http (not_found "Equipamento não encontrado"))
assert_network_device (ok allowed) (some type) =
    guard (includes type network_types) (http (bad_request "SNMP_DEVICE_TYPE_UNSUPPORTED"))

unfoldable pub purpose_of : String → Result Fault Purpose
purpose_of value =
    if value == "READ"
    then ok read
    else if value == "WRITE"
    then ok write
    else if value == "TRAP"
    then ok trap
    else err (http (bad_request "SNMP_CREDENTIAL_PURPOSE_INVALID"))

-- A text that is there and not empty.
abbrev pub given : Option Text → Option Text
given none = none
given (some t) = if is_empty t then none else some t

abbrev pub is_sha1 : Option Text → Bool
is_sha1 none = false
is_sha1 (some t) = same t (codes "SHA1")

abbrev pub bad : String → Fault
bad code = http (bad_request code)

unfoldable pub community_secret : SecretDto → Result Fault Secret
community_secret dto = do
  community ← or_throw (given dto.community) (bad "SNMP_COMMUNITY_INVALID")
  guard (leb 8 (length community)) (bad "SNMP_COMMUNITY_INVALID")
  ok ((codes "community", community) ∷ [])

unfoldable pub user_secret : SecretDto → Bool → Result Fault Secret
user_secret dto compatibility_sha1 = do
  username ← or_throw (given dto.username) (bad "SNMP_V3_SECRET_INCOMPLETE")
  auth_key ← or_throw (given dto.auth_key) (bad "SNMP_V3_SECRET_INCOMPLETE")
  priv_key ← or_throw (given dto.priv_key) (bad "SNMP_V3_SECRET_INCOMPLETE")
  guard (not (is_sha1 dto.auth_protocol) || compatibility_sha1)
      (bad "SNMP_SHA1_COMPATIBILITY_DISABLED")
  guard (leb 8 (length auth_key) && leb 8 (length priv_key)) (bad "SNMP_V3_SECRET_WEAK")
  ok ((codes "username", username) ∷ (codes "authKey", auth_key) ∷ (codes "privKey", priv_key) ∷ [])

-- `config?.compatibilitySha1`, where a missing configuration counts as false.
unfoldable pub credential_secret : SecretDto → Bool → Result Fault Secret
unfolding community_secret user_secret
credential_secret dto compatibility_sha1 = elim dto.version [
  | v2c ↦ community_secret dto
  | v3 ↦ user_secret dto compatibility_sha1
]

abbrev pub or_default : Option Text → Text → Text
or_default none t = t
or_default (some s) t = s

-- `credentialMetadata`, with the envelope.
abbrev pub stored_of : SecretDto → Envelope → Stored
stored_of dto e = elim dto.version [
  | v2c ↦ record {
    version = v2c;
    username = none;
    auth_protocol = none;
    priv_protocol = none;
    envelope = e;
  }
  | v3 ↦ record {
    version = v3;
    username = dto.username;
    auth_protocol = some (or_default dto.auth_protocol (codes "SHA256"));
    priv_protocol = some (or_default dto.priv_protocol (codes "AES128"));
    envelope = e;
  }
]
