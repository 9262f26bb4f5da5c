-- ===== src/Snmp/Service/Accept.antt =====
-- `acceptEnrollment` of snmp.service.ts: a device that sent traps before it was known becomes a row,
-- and the secret of its enrollment the credential of its traps. Ids of new rows are arguments.
pub mod Outcome
pub mod Handover
use management_app.Base.{
  ℕ, ◌≡◌, String, Bool, true, false, not, ◌&&◌, ◌||◌, Option, none, some, List, [], ◌∷◌, ◌++◌, map,
  filter, find, any, is_empty, leb, ltb, eqb, if◌then◌else◌, Result, ok, err, ◌>>=◌, ◌>>◌, guard,
  or_throw,
}
use management_app.Base.HttpError.{HttpError, bad_request, not_found, forbidden}
use management_app.Text.{Text, trim}
use management_app.Text.Sets.{same}
use management_app.Collections.Texts.{includes}
use management_app.Discovery.Networks.{Platform}
use management_app.Snmp.Keyring.{Bytes, Envelope, rewrap_credential}
use management_app.Snmp.Credentials.{Stored}
use management_app.Snmp.Traps.Store.{
  Enrollment, EnrollmentStatus, waiting, discovered, Event, pending,
}
use management_app.Snmp.Service.{taken, keyring_of}
use management_app.Snmp.Service.Secrets.{
  Fault, http, thrown, Credential, trap, Vault, Crypto, given, bad,
}
use management_app.Snmp.Service.Enrollments.{has_id}
use management_app.Snmp.Service.Subnets.{Subnet, most_specific_subnet}

pub record Device : Type 0 where
  pub id : Text
  pub name : Text
  pub type : Text
  pub hostname : Option Text
  pub model_id : Option Text
  pub front_asset_id : Option Text
  pub site_id : Text
  pub management_ip : Option Text
  pub rack_id : Option Text
  pub rack_unit_start : Option ℕ
  pub rack_unit_size : Option ℕ
  pub source : String
  pub status : String

pub record Address : Type 0 where
  pub id : Text
  pub subnet_id : Text
  pub address : Text
  pub device_id : Option Text
  pub source : String
  pub state : String

-- `queued` holds the ids of the events whose processing was asked for.
pub record Store : Type 0 where
  pub vault : Vault
  pub devices : List Device
  pub subnets : List Subnet
  pub addresses : List Address
  pub events : List Event
  pub queued : List Text

-- `DeviceModel`, and whether its layout has an array of ports.
pub record Model : Type 0 where
  pub type : Option Text
  pub has_layout : Bool
  pub supports_network_ports : Bool
  pub network_port_count : ℕ
  pub port_count : ℕ

-- `AcceptSnmpEnrollmentDto`
pub record AcceptDto : Type 0 where
  pub name : Text
  pub type : Text
  pub hostname : Option Text
  pub model_id : Option Text
  pub front_asset_id : Option Text

unfoldable pub assert_enrollment_operator : List String → Result Fault (Unit {0})
assert_enrollment_operator roles =
    guard (includes "ADMIN" roles || includes "NETWORK_OPERATOR" roles)
      (http (forbidden "Sem permissão para aceitar traps neste scope."))

abbrev pub is_other_type : Model → Text → Bool
is_other_type m type = elim (given m.type) [ none ↦ false | some t ↦ not (same t type) ]

unfoldable pub validate_model : Option Model → Text → Result Fault (Unit {0})
validate_model model type = do
  m ← or_throw model (http (not_found "Modelo não encontrado"))
  guard (not (is_other_type m type)) (bad "SNMP_ONBOARDING_MODEL_TYPE_MISMATCH")
  guard
      (not (
        m.supports_network_ports
        && (not (eqb m.network_port_count 0) || not (eqb m.port_count 0))
        && not m.has_layout))
      (taken "SNMP_ONBOARDING_MODEL_LAYOUT_REQUIRED")

unfoldable pub validate_onboarding_assets :
    (Text → Option Model)
    → (Text → Bool)
    → Text
    → Option Text
    → Option Text
    → Result Fault (Unit {0})
unfolding validate_model
validate_onboarding_assets models has_asset type model_id front_asset_id = do
  elim (given model_id) [ none ↦ ok tt | some id ↦ validate_model (models id) type ]
  elim (given front_asset_id) [
    | none ↦ ok tt
    | some id ↦ guard (has_asset id) (http (not_found "Imagem frontal não encontrada"))
  ]

-- What a call is given: the clock, the user's roles, the access check of a site, the tables it only
-- reads, the new vector and the ids of the rows it makes.
pub record Call : Type 0 where
  pub now : ℕ
  pub roles : List String
  pub permitted : Text → Result Fault (Unit {0})
  pub models : Text → Option Model
  pub has_asset : Text → Bool
  pub platform : Platform
  pub crypto : Crypto
  pub wrap_iv : Bytes
  pub device_id : Text
  pub address_id : Text
  pub credential_id : Text

abbrev pub is_discovered : EnrollmentStatus → Bool
is_discovered discovered = true
is_discovered waiting = false

abbrev pub is_there : {A : Type 0} → Option A → Bool
is_there none = false
is_there (some a) = true

abbrev pub is_managed_at : Text → Text → Device → Bool
is_managed_at site address d =
    same d.site_id site && elim d.management_ip [ none ↦ false | some ip ↦ same ip address ]

-- An address row of the site, taken by a device.
abbrev pub is_occupied : List Subnet → Text → Text → Address → Bool
is_occupied subnets site address a =
    same a.address address
    && is_there a.device_id
    && any (λ (s : Subnet). same s.id a.subnet_id && same s.site_id site) subnets

abbrev pub is_row : Text → Text → Address → Bool
is_row subnet address a = same a.subnet_id subnet && same a.address address

-- The row that is there is linked where it is free; a new one is made where none is there.
unfoldable pub link_address : Text → Text → Text → Text → List Address → Result Fault (List Address)
link_address id device subnet address rows = elim (find (is_row subnet address) rows) [
  | none ↦ ok (
      rows
      ++ record {
        id = id;
        subnet_id = subnet;
        address = address;
        device_id = some device;
        source = "SNMP";
        state = "OCCUPIED";
      }
        ∷ [])
  | some old ↦
      if is_there old.device_id
      then err (taken "SNMP_ENROLLMENT_IP_OCCUPIED")
      else ok (
          map
            (λ (a : Address).
              if same a.id old.id
              then record a { device_id = some device; source = "SNMP"; state = "OCCUPIED" }
              else a)
            rows)
]

abbrev pub is_event_of : Text → Event → Bool
is_event_of id e = elim e.enrollment_id [ none ↦ false | some owner ↦ same owner id ]

abbrev pub adopted : Text → Text → Text → Event → Event
adopted id device credential e =
    if is_event_of id e
    then record e {
      device_id = some device;
      credential_id = some credential;
      enrollment_id = none;
      status = pending;
    }
    else e

-- `dto.hostname?.trim() || undefined`
abbrev pub trimmed : Option Text → Option Text
trimmed none = none
trimmed (some t) = given (some (trim t))

abbrev pub new_device : Call → AcceptDto → Text → Text → Text → Device
new_device call dto name site address = record {
  id = call.device_id;
  name = name;
  type = dto.type;
  hostname = trimmed dto.hostname;
  model_id = dto.model_id;
  front_asset_id = dto.front_asset_id;
  site_id = site;
  management_ip = some address;
  rack_id = none;
  rack_unit_start = none;
  rack_unit_size = none;
  source = "SNMP";
  status = "UNKNOWN";
}

abbrev pub new_credential : Call → Enrollment → Envelope → Credential
new_credential call current e = record {
  id = call.credential_id;
  device_id = call.device_id;
  purpose = trap;
  label = none;
  stored = record current.stored { envelope = e };
  enabled = true;
  last_test_status = none;
}

abbrev pub claimed : Fault
claimed = taken "SNMP_ENROLLMENT_ALREADY_CLAIMED"

-- The transaction, on the tables as it finds them, with the subnet and the envelope of the checks.
unfoldable pub accept_transaction :
    Call → Text → AcceptDto → Text → Subnet → Envelope → Store → Result Fault Store
unfolding link_address
accept_transaction call id dto name subnet e s = do
  current ← or_throw (find (has_id id) s.vault.enrollments) claimed
  guard (ltb call.now current.expires_at && is_discovered current.status)
      (taken "SNMP_ENROLLMENT_NOT_AVAILABLE")
  guard (not (any (is_managed_at current.site_id current.source_address) s.devices))
      (taken "SNMP_ENROLLMENT_DEVICE_EXISTS")
  guard (not (any (is_occupied s.subnets current.site_id current.source_address) s.addresses))
      (taken "SNMP_ENROLLMENT_IP_OCCUPIED")
  addresses ←
      link_address call.address_id call.device_id subnet.id current.source_address s.addresses
  ok (record {
    vault = record {
      credentials = s.vault.credentials ++ new_credential call current e ∷ [];
      enrollments = filter (λ x. not (has_id id x)) s.vault.enrollments;
    };
    devices = s.devices ++ new_device call dto name current.site_id current.source_address ∷ [];
    subnets = s.subnets;
    addresses = addresses;
    events = map (adopted id call.device_id call.credential_id) s.events;
    queued = s.queued ++ map (λ (x : Event). x.id) (filter (is_event_of id) s.events);
  })

-- The checks before the transaction: what they find, the subnet and the envelope under the active key.
unfoldable pub accept_checks : Call → Text → AcceptDto → Store → Result Fault (Subnet × Envelope)
unfolding assert_enrollment_operator validate_onboarding_assets
accept_checks call id dto s = do
  assert_enrollment_operator call.roles
  guard (not (is_empty (trim dto.name))) (bad "SNMP_DEVICE_NAME_REQUIRED")
  enrollment ← or_throw (find (has_id id) s.vault.enrollments) claimed
  guard (ltb call.now enrollment.expires_at) (taken "SNMP_ENROLLMENT_EXPIRED")
  guard (is_discovered enrollment.status && is_there enrollment.first_seen_at)
      (taken "SNMP_ENROLLMENT_NOT_DISCOVERED")
  call.permitted enrollment.site_id
  validate_onboarding_assets call.models call.has_asset dto.type dto.model_id dto.front_asset_id
  subnet ←
      or_throw
        (most_specific_subnet call.platform enrollment.source_address
          (filter (λ (x : Subnet). same x.site_id enrollment.site_id) s.subnets))
        (taken "SNMP_ENROLLMENT_NO_SUBNET")
  ring ← keyring_of call.crypto
  e ← thrown (rewrap_credential call.crypto.aes call.wrap_iv enrollment.stored.envelope ring)
  ok (subnet, e)

unfoldable pub accept_enrollment : Call → Text → AcceptDto → Store → Result Fault Store
unfolding accept_checks accept_transaction
accept_enrollment call id dto s = do
  found ← accept_checks call id dto s
  accept_transaction call id dto (trim dto.name) found.0 found.1 s
