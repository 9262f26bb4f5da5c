-- ===== src/Snmp/Service/Tests.antt =====
-- A router whose credential is stored, a switch that is enrolled, sends a trap and is accepted.
use management_app.Base.{◌<◌, ◌≡◌, refl, String, true, false, none, some, [], ◌∷◌, Elem, ok}
use management_app.Base.Number.{other}
use management_app.Base.Sort.{sort, insert}
use management_app.Text.{codes, trim, split, number, decimal}
use management_app.Discovery.Networks.{Platform}
use management_app.Ipam.Planning.{octets}
use management_app.Snmp.Keyring.{
  Envelope, key_of, encrypt_credential, decrypt_credential, rewrap_credential, rewrapped,
}
use management_app.Snmp.Credentials.{v2c}
use management_app.Snmp.Traps.Store.{Enrollment, EnrollmentStatus, Event, EventStatus, pending}
use management_app.Snmp.Service.{
  create_credential, put_credential, assert_secret_available, assert_all_differ, is_user_taken,
}
use management_app.Snmp.Service.Secrets.{
  Credential, Vault, SecretDto, Crypto, read, purpose_of, credential_secret, community_secret,
  user_secret, stored_of,
}
use management_app.Snmp.Service.Enrollments.{create_enrollment, enrolled}
use management_app.Snmp.Service.Subnets.{Subnet, ipv4_number, in_cidr, most_specific_subnet}
use management_app.Snmp.Service.Subnets.Longest.{IsLongest, most_specific_subnet-IsLongest}
use management_app.Snmp.Service.Accept.{
  Store, Call, AcceptDto, new_device, new_credential, assert_enrollment_operator,
  validate_onboarding_assets, link_address, accept_checks, accept_transaction, accept_enrollment,
}
use management_app.Snmp.Service.Accept.Handover.{
  HasDevice, IsHandedOver, accept_enrollment-HandsOver,
}
use management_app.Snmp.Service.Exclusive.{crypto_of, IsUnshared}
use management_app.Snmp.Service.Exclusive.Steps.{
  creates, enrolls, Reachable, start, next, IsFresh, Reachable-IsUnshared,
}
use management_app.Snmp.Toy.{
  aes, json, parse, pieces, paired, stringify, ended, ring, next_ring, random,
}

abbrev js : Platform
js = record { is_ip = λ t. 4; other_forms = λ t. other }

abbrev with_community : String → SecretDto
with_community s = record {
  version = v2c;
  label = none;
  username = none;
  auth_protocol = none;
  priv_protocol = none;
  community = some (codes s);
  auth_key = none;
  priv_key = none;
}

abbrev sealed_of : String → Envelope
sealed_of s = record {
  ciphertext = stringify ((codes "community", codes s) ∷ []);
  iv = 2 ∷ [];
  auth_tag = 1 ∷ [];
  wrapped_dek = 1 ∷ [];
  wrap_iv = 3 ∷ [];
  wrap_auth_tag = 7 ∷ [];
  key_id = codes "k1";
}

abbrev router : Credential
router = record {
  id = codes "c1";
  device_id = codes "router";
  purpose = read;
  label = none;
  stored = stored_of (with_community "read-only") (sealed_of "read-only");
  enabled = true;
  last_test_status = none;
}

abbrev switch : Enrollment
switch =
    enrolled (codes "e1") (codes "north") (codes "10.1.2.3") 5 (with_community "trap-only")
      (sealed_of "trap-only")

abbrev empty : Vault
empty = record { credentials = []; enrollments = [] }

abbrev one_row : Vault
one_row = record { credentials = router ∷ []; enrollments = [] }

abbrev two_rows : Vault
two_rows = record { credentials = router ∷ []; enrollments = switch ∷ [] }

abbrev toy : Crypto
toy = crypto_of aes json ring.keys (codes "k1") random

created :
    create_credential toy
      (ok tt)
      false
      (codes "c1")
      (codes "router")
      "READ"
      (with_community "read-only")
      empty
    ≡ ok one_row
unfolding create_credential put_credential assert_secret_available assert_all_differ is_user_taken
    purpose_of credential_secret community_secret user_secret encrypt_credential key_of
created = refl

registered :
    create_enrollment toy
      (ok tt)
      true
      false
      false
      (codes "e1")
      (codes "north")
      (codes "10.1.2.3")
      5
      (with_community "trap-only")
      one_row
    ≡ ok two_rows
unfolding create_enrollment assert_secret_available assert_all_differ is_user_taken
    credential_secret community_secret user_secret encrypt_credential decrypt_credential key_of
    stringify ended parse pieces paired
registered = refl

fresh : IsFresh (codes "c1") empty
fresh c m = absurd m

reached : Reachable aes json ring.keys two_rows
reached =
    next one_row two_rows
      (next empty one_row start (
        creates (codes "k1") (codes "c1") (codes "router") random (ok tt) false "READ"
          (with_community "read-only") empty one_row fresh created))
      (enrolls (codes "k1") (codes "e1") (codes "north") (codes "10.1.2.3") random (ok tt) true
        false false 5 (with_community "trap-only") one_row two_rows (λ e m. absurd m) registered)

Reachable-IsUnshared_example : IsUnshared aes json ring.keys two_rows
Reachable-IsUnshared_example = Reachable-IsUnshared aes json ring.keys two_rows reached

abbrev wide : Subnet
wide = record { id = codes "s1"; site_id = codes "north"; cidr = codes "10.0.0.0/8" }

abbrev narrow : Subnet
narrow = record { id = codes "s2"; site_id = codes "north"; cidr = codes "10.1.2.0/24" }

most_specific_subnet-IsLongest_example :
    IsLongest js
      (codes "10.1.2.3")
      (wide ∷ narrow ∷ [])
      (most_specific_subnet js (codes "10.1.2.3") (wide ∷ narrow ∷ []))
most_specific_subnet-IsLongest_example =
    most_specific_subnet-IsLongest js (codes "10.1.2.3") (wide ∷ narrow ∷ [])

chosen : most_specific_subnet js (codes "10.1.2.3") (wide ∷ narrow ∷ []) ≡ some narrow
unfolding most_specific_subnet in_cidr ipv4_number octets split number decimal trim sort insert
chosen = refl

-- The switch after its first trap, which is kept as an event.
abbrev seen : Enrollment
seen = record switch {
  status = EnrollmentStatus.discovered;
  first_seen_at = some 6;
  last_seen_at = some 6;
  trap_count = 1;
}

abbrev event : Event
event = record {
  id = codes "t1";
  device_id = none;
  credential_id = none;
  enrollment_id = some (codes "e1");
  source_address = codes "10.1.2.3";
  source_port = 162;
  version = v2c;
  auth_identity = [];
  engine_id = none;
  request_id = none;
  pdu_type = 167;
  trap_oid = none;
  varbinds = [];
  status = EventStatus.discovered;
  category = none;
  severity = none;
  dedup_key = none;
  processed_at = none;
  expires_at = 9;
}

abbrev before : Store
before = record {
  vault = record { credentials = router ∷ []; enrollments = seen ∷ [] };
  devices = [];
  subnets = wide ∷ narrow ∷ [];
  addresses =
      record {
        id = codes "a1";
        subnet_id = codes "s2";
        address = codes "10.1.2.3";
        device_id = none;
        source = "MANUAL";
        state = "FREE";
      }
      ∷ [];
  events = event ∷ [];
  queued = [];
}

abbrev call : Call
call = record {
  now = 10;
  roles = "NETWORK_OPERATOR" ∷ [];
  permitted = λ site. ok tt;
  models = λ m. none;
  has_asset = λ a. false;
  platform = js;
  crypto = record { aes = aes; json = json; keyring = ok next_ring; random = random };
  wrap_iv = 4 ∷ [];
  device_id = codes "d1";
  address_id = codes "a2";
  credential_id = codes "c2";
}

abbrev dto : AcceptDto
dto = record {
  name = codes " switch ";
  type = codes "SWITCH";
  hostname = none;
  model_id = none;
  front_asset_id = none;
}

abbrev final : Store
final = record {
  vault = record {
    credentials =
        router
        ∷ new_credential call seen (record (sealed_of "trap-only") {
          wrap_iv = 4 ∷ [];
          wrap_auth_tag = 8 ∷ [];
          key_id = codes "k2";
        })
        ∷ [];
    enrollments = [];
  };
  devices = new_device call dto (codes "switch") (codes "north") (codes "10.1.2.3") ∷ [];
  subnets = wide ∷ narrow ∷ [];
  addresses =
      record {
        id = codes "a1";
        subnet_id = codes "s2";
        address = codes "10.1.2.3";
        device_id = some (codes "d1");
        source = "SNMP";
        state = "OCCUPIED";
      }
      ∷ [];
  events =
      record event {
        device_id = some (codes "d1");
        credential_id = some (codes "c2");
        enrollment_id = none;
        status = pending;
      }
      ∷ [];
  queued = codes "t1" ∷ [];
}

handed_over : accept_enrollment call (codes "e1") dto before ≡ ok final
unfolding accept_enrollment accept_checks accept_transaction assert_enrollment_operator
    validate_onboarding_assets link_address rewrap_credential rewrapped key_of most_specific_subnet
    in_cidr ipv4_number octets split number decimal trim sort insert stringify ended
handed_over = refl

accept_enrollment-HandsOver_example :
    (e : Enrollment) × Elem e before.vault.enrollments
    × (e.id ≡ codes "e1")
    × (10 < e.expires_at)
    × (e.status ≡ EnrollmentStatus.discovered)
    × HasDevice call e before final
    × IsHandedOver call e before final
accept_enrollment-HandsOver_example =
    accept_enrollment-HandsOver call (codes "e1") dto before final handed_over
