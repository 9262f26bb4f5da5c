-- ===== src/Snmp/Service/Onboard/Tests.antt =====
-- A switch is onboarded above the router of a rack, with credentials for reading and for traps.
use management_app.Base.{
  ℕ, ◌≤◌, ◌≡◌, refl, sym, ◌∙◌, ap, inl, inr, arith, String, true, none, some, [], ◌∷◌, ok,
}
use management_app.Base.Number.{other}
use mathlib.Core.Path.{subst}
use management_app.Text.{Text, codes}
use management_app.Discovery.Networks.{Platform}
use management_app.Snmp.Keyring.{key_of, encrypt_credential, decrypt_credential}
use management_app.Snmp.Credentials.{v2c}
use management_app.Snmp.Service.{assert_secret_available, assert_all_differ, is_user_taken}
use management_app.Snmp.Service.Secrets.{
  SecretDto, Purpose, read, trap, Credential, credential_secret, community_secret, user_secret,
  stored_of,
}
use management_app.Snmp.Service.Accept.{Device, validate_onboarding_assets}
use management_app.Snmp.Service.Schedule.{ConfigDto, new_config}
use management_app.Snmp.Service.Onboard.{
  Rack, OnboardDto, Store, Call, validate_place, validate_onboarding_rack, secrets_of,
  credentials_of, added, new_device, onboard_checks, onboard_transaction, onboard_device,
}
use management_app.Snmp.Service.Onboard.Units.{Covers}
use management_app.Snmp.Service.Onboard.Placed.{IsPlaced, onboard_device-IsPlaced}
use management_app.Snmp.Toy.{aes, json, parse, pieces, paired, stringify, ended, ring, random}

abbrev js : Platform
js = record { is_ip = λ t. 4; other_forms = λ t. other }

abbrev with_community : String → SecretDto
with_community s = record {
  version = v2c;
  label = none;
  username = none;
  auth_protocol = none;
  priv_protocol = none;
  community = some (codes s);
  auth_key = none;
  priv_key = none;
}

abbrev rack : Rack
rack = record { units = 10; site_id = codes "north" }

abbrev call : Call
call = record {
  permitted = ok tt;
  platform = js;
  racks = λ id. some rack;
  models = λ id. none;
  has_asset = λ id. true;
  crypto = record { aes = aes; json = json; keyring = ok ring; random = random };
  trap_random = random;
  device_id = codes "switch";
  config_id = codes "k1";
  read_id = codes "c1";
  trap_id = codes "c2";
}

abbrev config : ConfigDto
config = record {
  enabled = true;
  port = none;
  interval_minutes = none;
  timeout_ms = none;
  retries = none;
  compatibility_sha1 = none;
}

abbrev dto : OnboardDto
dto = record {
  site_id = codes "north";
  name = codes "sw-1";
  type = codes "SWITCH";
  hostname = none;
  model_id = none;
  front_asset_id = none;
  rack_id = some (codes "r1");
  rack_unit_start = some 3;
  rack_unit_size = some 2;
  management_ip = codes "10.1.2.3";
  config = config;
  read_credential = with_community "read-only";
  trap_credential = some (with_community "trap-only");
}

abbrev router : Device
router = record {
  id = codes "router";
  name = codes "rt-1";
  type = codes "ROUTER";
  hostname = none;
  model_id = none;
  front_asset_id = none;
  site_id = codes "north";
  management_ip = some (codes "10.1.2.1");
  rack_id = some (codes "r1");
  rack_unit_start = some 1;
  rack_unit_size = some 2;
  source = "MANUAL";
  status = "UNKNOWN";
}

abbrev before : Store
before = record {
  vault = record { credentials = []; enrollments = [] };
  devices = router ∷ [];
  configs = [];
}

abbrev row : String → Purpose → String → Credential
row id p s = record {
  id = codes id;
  device_id = codes "switch";
  purpose = p;
  label = none;
  stored = stored_of (with_community s) (record {
    ciphertext = stringify ((codes "community", codes s) ∷ []);
    iv = 2 ∷ [];
    auth_tag = 1 ∷ [];
    wrapped_dek = 1 ∷ [];
    wrap_iv = 3 ∷ [];
    wrap_auth_tag = 7 ∷ [];
    key_id = codes "k1";
  });
  enabled = true;
  last_test_status = none;
}

abbrev after : Store
after = record {
  vault = record {
    credentials = row "c1" read "read-only" ∷ row "c2" trap "trap-only" ∷ [];
    enrollments = [];
  };
  devices = router ∷ new_device call dto ∷ [];
  configs = new_config (codes "k1") (codes "switch") config ∷ [];
}

onboarded : onboard_device call dto before ≡ ok after
unfolding onboard_device onboard_checks onboard_transaction validate_onboarding_rack validate_place
    validate_onboarding_assets secrets_of credentials_of added assert_secret_available
    assert_all_differ is_user_taken credential_secret community_secret user_secret
    encrypt_credential decrypt_credential key_of stringify ended parse pieces paired
onboarded = refl

start-one : (id : Text) (u : ℕ) (c : Covers id u router) → (1 ≤ u) × (u ≤ 10)
start-one id u c =
    let from = c.from in
    let to = c.to in
    let at : some 1 ≡ some c.start = c.at in
    let high : some 2 ≡ some c.size = c.high in
    let s : 1 ≡ c.start = cc in let z : 2 ≡ c.size = cc in (omega arith, omega arith)

router-IsPlaced : IsPlaced call.racks before.devices
router-IsPlaced = record {
  inside = λ id u d m c. elim m [
    | inl e ↦
        let (low, high) = start-one id u (subst (Covers id u) e c) in
        (rack, refl, ap (λ (x : Device). x.site_id) (sym e), low, high)
    | inr nothing ↦ absurd nothing
  ];
  alone = λ id u d e m n c g. elim m [
    | inl p ↦ elim n [ inl q ↦ p ∙ sym q | inr nothing ↦ absurd nothing ]
    | inr nothing ↦ absurd nothing
  ];
}

onboard_device-IsPlaced_example : IsPlaced call.racks after.devices
onboard_device-IsPlaced_example =
    onboard_device-IsPlaced call dto before after router-IsPlaced onboarded
