-- ===== src/Snmp/Traps/Tests.antt =====
-- A receiver with one device, whose trap credential holds the user name "ops", an inform that is sent
-- twice, and a host whose selected interface is there.
use Prim.Native.Nat.{Ordering}
use management_app.Base.{◌≡◌, refl, true, false, none, some, [], ◌∷◌, any, ok}
use management_app.Text.{codes}
use management_app.Snmp.Toy.{aes, json, ring, sealed, parse, stringify, pieces}
use management_app.Snmp.Keyring.{decrypt_credential, key_of}
use management_app.Snmp.Limits.{allowed, admit_new, current, put}
use management_app.Snmp.Credentials.{
  v2c, v3, Stored, Vault, decrypt_stored_credential, field_of, Protocols,
}
use management_app.Snmp.Listeners.{Interface}
use management_app.Snmp.Listeners.Chosen.{names}
use management_app.Snmp.Listeners.Sockets.{Receiver, World}
use management_app.Snmp.Traps.Store.{Credential, Device, State}
use management_app.Snmp.Traps.Notifications.{
  Host, Notification, named, string, no_engine, raw_identity, version_of, classify_trap,
}
use management_app.Snmp.Traps.Association.{identifies, match_credential, owner_of}
use management_app.Snmp.Traps.Association.Laws.{Owns, owner_of-Owns}
use management_app.Snmp.Traps.Events.{
  dedup_key_of, store_varbinds, insert_event, follow_up, persist, process, has_id,
}
use management_app.Snmp.Traps.Steps.{start, later, persists, processes, IsSound}
use management_app.Snmp.Traps.Steps.Sound.{Reachable-IsSound}

abbrev vault : Vault
vault = record { aes = aes; json = json; keyring = ok ring }

abbrev stored : Stored
stored = record {
  version = v3;
  username = none;
  auth_protocol = none;
  priv_protocol = none;
  envelope = sealed;
}

abbrev credential : Credential
credential = record {
  id = codes "c1";
  is_trap = true;
  enabled = true;
  stored = stored;
  last_used_at = none;
}

abbrev switch : Device
switch = record {
  id = codes "d1";
  management_ip = some (codes "10.0.0.9");
  snmp_credentials = credential ∷ [];
}

abbrev host : Host
host = record {
  trap_v2 = 167;
  inform_request = 166;
  sha256 = λ t. t;
  json_size = λ vs. 100;
  is_ip = λ t. 4;
  vault = vault;
  settings = record { source_limit = 9; rate_limit = 9 };
  self_test = record { enabled = none; proxy_sources = none; allow_translated = none };
}

abbrev inform : Notification
inform = record {
  pdu_type = some 166;
  source_address = codes "10.0.0.9";
  source_port = 162;
  is_version3 = true;
  community = none;
  user = some (named (codes "ops"));
  security_name = none;
  engine_id = no_engine;
  request_id = some (codes "5");
  varbinds = some (
      record {
        oid = codes "1.3.6.1.6.3.1.1.4.1.0";
        type = 6;
        value = string (codes "1.3.6.1.6.3.1.1.5.3");
      }
      ∷ []);
}

abbrev empty : State
empty = record {
  limits = [];
  devices = switch ∷ [];
  enrollments = [];
  interfaces = [];
  listener_config = none;
  events = [];
  audit = [];
  queued = [];
}

abbrev once : State
once = persist host true 1000 (codes "e1") inform empty

abbrev twice : State
twice = persist host true 2000 (codes "e2") inform once

abbrev done : State
done = process 3000 (codes "e1") twice

classified : classify_trap (some (codes "1.3.6.1.6.3.1.1.5.3")) ≡ ("LINK_DOWN", "WARNING")
unfolding classify_trap
classified = refl

Owns_example :
    Owns host 1000 v3
      (codes "ops")
      (codes "10.0.0.9")
      empty
      (owner_of host 1000 v3 (codes "ops") (codes "10.0.0.9") empty)
Owns_example = owner_of-Owns host 1000 v3 (codes "ops") (codes "10.0.0.9") empty

fresh : any (has_id (codes "e2")) once.events ≡ false
unfolding persist store_varbinds insert_event follow_up owner_of match_credential identifies
    decrypt_stored_credential decrypt_credential key_of field_of raw_identity version_of allowed
    admit_new current put pieces parse stringify dedup_key_of
fresh = refl

Reachable-IsSound_example : IsSound done.events
Reachable-IsSound_example = Reachable-IsSound (
    later
      (later (later (start empty refl) (persists true 1000 (codes "e1") inform empty refl))
        (persists true 2000 (codes "e2") inform once fresh))
      (processes 3000 (codes "e1") twice))

abbrev community : Stored
community = record stored {
  version = v2c;
  envelope = record sealed { ciphertext = stringify ((codes "community", codes "public") ∷ []) };
}

abbrev protocols : Protocols
protocols = record { auth = λ t. some 1; priv = λ t. some 1 }

abbrev eth0 : Interface
eth0 = record {
  instance_id = codes "n1";
  name = codes "eth0";
  address = codes "10.0.0.2";
  internal = false;
}

abbrev world : World
world = record {
  container_ingress = false;
  trap_address = none;
  instance_id = codes "n1";
  locale = λ a b. Ordering.eq;
  interfaces =
      (
        codes "eth0",
        record { family = codes "IPv4"; address = codes "10.0.0.2"; internal = false } ∷ [],
      )
      ∷ [];
  config = some (record { listen_all = false; selected_interfaces = some (names eth0 ∷ []) });
  now = 5;
  opens = λ t. true;
}

abbrev closed : Receiver
closed = record { sockets = []; bound_addresses = []; inventory_cleaned = false; ready = false }
