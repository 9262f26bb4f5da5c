-- ===== src/Snmp/Service/Onboard.antt =====
-- `onboardDevice` of snmp.service.ts, with `validateOnboardingRack`: a device is made with its place in a
-- rack, its configuration and its credentials at once. Ids of new rows are arguments.
pub mod Fresh
pub mod Kept
pub mod Units
pub mod Placed
mod Tests
use management_app.Base.{
  ℕ, ◌+◌, ◌-◌, ◌≡◌, String, Bool, true, false, not, ◌&&◌, ◌||◌, Option, none, some, List, [], ◌∷◌,
  ◌++◌, filter, any, leb, ltb, eqb, if◌then◌else◌, Result, ok, err, ◌>>=◌, ◌>>◌, guard, or_throw,
}
use management_app.Base.HttpError.{not_found}
use management_app.Text.{Text}
use management_app.Text.Sets.{same}
use management_app.Discovery.Networks.{Platform}
use management_app.Snmp.Keyring.{Envelope, Failure, Keyring, Random, Secret, encrypt_credential}
use management_app.Snmp.Credentials.{v2c, v3}
use management_app.Snmp.Service.{Options, taken, assert_secret_available}
use management_app.Snmp.Service.Secrets.{
  Fault, http, thrown, bad, given, Purpose, read, trap, Credential, Vault, SecretDto, Crypto,
  credential_secret, stored_of,
}
use management_app.Snmp.Service.Accept.{Device, Model, is_managed_at, validate_onboarding_assets}
use management_app.Snmp.Service.Schedule.{Config, ConfigDto, new_config, or_false}

-- A rack, with the site of its room's building.
pub record Rack : Type 0 where
  pub units : ℕ
  pub site_id : Text

-- `SnmpOnboardingDeviceDto`
pub record OnboardDto : Type 0 where
  pub site_id : Text
  pub name : Text
  pub type : Text
  pub hostname : Option Text
  pub model_id : Option Text
  pub front_asset_id : Option Text
  pub rack_id : Option Text
  pub rack_unit_start : Option ℕ
  pub rack_unit_size : Option ℕ
  pub management_ip : Text
  pub config : ConfigDto
  pub read_credential : SecretDto
  pub trap_credential : Option SecretDto

pub record Store : Type 0 where
  pub vault : Vault
  pub devices : List Device
  pub configs : List Config

-- A number that is there and not zero.
abbrev pub given_number : Option ℕ → Option ℕ
given_number none = none
given_number (some n) = if eqb n 0 then none else some n

abbrev pub is_some : {A : Type 0} → Option A → Bool
is_some none = false
is_some (some a) = true

abbrev pub is_in_rack : Text → Device → Bool
is_in_rack rack d = elim d.rack_id [ none ↦ false | some r ↦ same r rack ]

-- The last unit of a block is its first and its size less one.
abbrev pub meets : ℕ → ℕ → Option ℕ → Option ℕ → Bool
meets start last (some from) (some size) = leb start (from + size - 1) && leb from last
meets _ _ _ _ = false

abbrev pub occupies : ℕ → ℕ → Device → Bool
occupies start last d =
    meets start last (given_number d.rack_unit_start) (given_number d.rack_unit_size)

unfoldable pub validate_place : Rack → Text → Text → ℕ → ℕ → List Device → Result Fault (Unit {0})
validate_place rack id site start size devices = do
  guard (same rack.site_id site) (taken "SNMP_ONBOARDING_RACK_SITE_MISMATCH")
  guard (leb (start + size - 1) rack.units) (taken "SNMP_ONBOARDING_RACK_BOUNDS")
  guard (not (any (occupies start (start + size - 1)) (filter (is_in_rack id) devices)))
      (taken "SNMP_ONBOARDING_RACK_OCCUPIED")

unfoldable pub validate_onboarding_rack :
    (Text → Option Rack) → OnboardDto → List Device → Result Fault (Unit {0})
unfolding validate_place
validate_onboarding_rack racks dto devices = elim (given dto.rack_id) [
  | none ↦
      guard
        (not
          (is_some (given_number dto.rack_unit_start) || is_some (given_number dto.rack_unit_size)))
        (bad "SNMP_ONBOARDING_RACK_REQUIRED")
  | some id ↦ do
    start ←
        or_throw (given_number dto.rack_unit_start) (bad "SNMP_ONBOARDING_RACK_POSITION_REQUIRED")
    size ← or_throw (given_number dto.rack_unit_size) (bad "SNMP_ONBOARDING_RACK_POSITION_REQUIRED")
    rack ← or_throw (racks id) (http (not_found "Bastidor não encontrado"))
    validate_place rack id dto.site_id start size devices
]

-- What a call is given: the access check, the tables it only reads, the cryptography with the random
-- bytes of the second secret, and the ids of the rows it makes.
pub record Call : Type 0 where
  pub permitted : Result Fault (Unit {0})
  pub platform : Platform
  pub racks : Text → Option Rack
  pub models : Text → Option Model
  pub has_asset : Text → Bool
  pub crypto : Crypto
  pub trap_random : Random
  pub device_id : Text
  pub config_id : Text
  pub read_id : Text
  pub trap_id : Text

abbrev pub read_options : Options
read_options = record {
  skip_credential_id = none;
  skip_enrollment_id = none;
  v3_trap_username = none;
}

abbrev pub trap_options : SecretDto → Options
trap_options dto = record {
  skip_credential_id = none;
  skip_enrollment_id = none;
  v3_trap_username = elim dto.version [ v3 ↦ dto.username | v2c ↦ none ];
}

abbrev pub new_credential : Text → Text → Purpose → SecretDto → Envelope → Credential
new_credential id device purpose dto e = record {
  id = id;
  device_id = device;
  purpose = purpose;
  label = dto.label;
  stored = stored_of dto e;
  enabled = true;
  last_test_status = none;
}

-- READ and TRAP ask for different secrets.
abbrev pub same_secret : Crypto → Secret → Secret → Bool
same_secret k s t = same (k.json.stringify s) (k.json.stringify t)

abbrev pub trap_secret_of :
    Crypto → Bool → Secret → Option SecretDto → Result Fault (Option (SecretDto × Secret))
trap_secret_of k sha1 secret none = ok none
trap_secret_of k sha1 secret (some dto) = do
  trap_secret ← credential_secret dto sha1
  guard (not (same_secret k secret trap_secret)) (taken "SNMP_CREDENTIAL_PURPOSE_REUSE")
  ok (some (dto, trap_secret))

-- The secrets that are asked for.
abbrev pub Secrets : Type 0
Secrets = Secret × Option (SecretDto × Secret)

unfoldable pub secrets_of : Crypto → OnboardDto → Result Fault Secrets
secrets_of k dto = do
  secret ← credential_secret dto.read_credential (or_false dto.config.compatibility_sha1)
  second ← trap_secret_of k (or_false dto.config.compatibility_sha1) secret dto.trap_credential
  ok (secret, second)

abbrev pub read_row : Call → OnboardDto → Envelope → Credential
read_row call dto e = new_credential call.read_id call.device_id read dto.read_credential e

abbrev pub trap_row : Call → SecretDto → Envelope → Credential
trap_row call dto e = new_credential call.trap_id call.device_id trap dto e

abbrev pub checked_trap : Call → Option (SecretDto × Secret) → Vault → Result Fault (Unit {0})
checked_trap call none v = ok tt
checked_trap call (some (dto, secret)) v =
    assert_secret_available call.crypto secret (trap_options dto) v >>= λ ring. ok tt

abbrev pub sealed_trap :
    Call → Keyring → Option (SecretDto × Secret) → Result Failure (List Credential)
sealed_trap call ring none = ok []
sealed_trap call ring (some (dto, secret)) =
    encrypt_credential call.crypto.aes call.crypto.json call.trap_random secret ring >>= λ e.
    ok (trap_row call dto e ∷ [])

-- The credentials that are made.
unfoldable pub credentials_of : Call → OnboardDto → Secrets → Vault → Result Fault (List Credential)
credentials_of call dto secrets v = do
  ring ← assert_secret_available call.crypto secrets.0 read_options v
  checked_trap call secrets.1 v
  e ← thrown (encrypt_credential call.crypto.aes call.crypto.json call.crypto.random secrets.0 ring)
  rest ← thrown (sealed_trap call ring secrets.1)
  ok (read_row call dto e ∷ rest)

-- One `create` after another.
unfoldable pub added : List Credential → List Credential → List Credential
added cs [] = cs
added cs (a ∷ rows) = added (cs ++ a ∷ []) rows

abbrev pub new_device : Call → OnboardDto → Device
new_device call dto = record {
  id = call.device_id;
  name = dto.name;
  type = dto.type;
  hostname = dto.hostname;
  model_id = dto.model_id;
  front_asset_id = dto.front_asset_id;
  site_id = dto.site_id;
  management_ip = some dto.management_ip;
  rack_id = dto.rack_id;
  rack_unit_start = dto.rack_unit_start;
  rack_unit_size = dto.rack_unit_size;
  source = "MANUAL";
  status = "UNKNOWN";
}

unfoldable pub onboard_checks : Call → OnboardDto → Store → Result Fault Secrets
unfolding validate_onboarding_rack secrets_of
onboard_checks call dto s = do
  call.permitted
  guard (not (eqb (call.platform.is_ip dto.management_ip) 0)) (bad "SNMP_MANAGEMENT_IP_REQUIRED")
  validate_onboarding_assets call.models call.has_asset dto.type dto.model_id dto.front_asset_id
  validate_onboarding_rack call.racks dto s.devices
  secrets_of call.crypto dto

-- The transaction, on the tables as it finds them.
unfoldable pub onboard_transaction : Call → OnboardDto → Secrets → Store → Result Fault Store
unfolding validate_onboarding_rack credentials_of added
onboard_transaction call dto secrets s = do
  validate_onboarding_rack call.racks dto s.devices
  guard (not (any (is_managed_at dto.site_id dto.management_ip) s.devices))
      (taken "SNMP_ONBOARDING_DEVICE_EXISTS")
  rows ← credentials_of call dto secrets s.vault
  ok (record {
    vault = record s.vault { credentials = added s.vault.credentials rows };
    devices = s.devices ++ new_device call dto ∷ [];
    configs = s.configs ++ new_config call.config_id call.device_id dto.config ∷ [];
  })

-- The polls are scheduled afterwards (`Schedule`); a failure of the queue is kept in the configuration.
unfoldable pub onboard_device : Call → OnboardDto → Store → Result Fault Store
unfolding onboard_checks onboard_transaction
onboard_device call dto s = do
  secrets ← onboard_checks call dto s
  onboard_transaction call dto secrets s
