-- ===== src/Snmp/Service/Schedule/Tests.antt =====
-- A device whose polls are turned on, and off again.
use management_app.Base.{◌≡◌, ◌≢◌, ◌↔◌, refl, Bool, true, false, none, some, [], ◌∷◌, Elem, ok}
use management_app.Base.Number.{other}
use management_app.Text.{codes}
use management_app.Discovery.Networks.{Platform}
use management_app.Snmp.Service.Schedule.{
  Scheduler, Tables, ConfigDto, new_config, hash, deterministic_jitter, schedule_config,
  saved_and_scheduled, answered, upsert_config,
}
use management_app.Snmp.Service.Schedule.Laws.{IsPolled, upsert_config-IsPolled}

abbrev js : Platform
js = record { is_ip = λ t. 4; other_forms = λ t. other }

abbrev dto : Bool → ConfigDto
dto b = record {
  enabled = b;
  port = none;
  interval_minutes = some 5;
  timeout_ms = none;
  retries = none;
  compatibility_sha1 = none;
}

abbrev other_one : Scheduler
other_one = record { device_id = codes "b"; every = 900000; start_date = 9; config_id = codes "k9" }

abbrev before : Tables
before = record { configs = []; schedulers = other_one ∷ [] }

abbrev on : Tables
on = record {
  configs =
      record (new_config (codes "k1") (codes "a") (dto true)) { next_poll_at = some 1097 } ∷ [];
  schedulers =
      other_one
      ∷ record { device_id = codes "a"; every = 300000; start_date = 1097; config_id = codes "k1" }
      ∷ [];
}

turned_on :
    upsert_config js
      (ok (some (codes "10.0.0.1")))
      true
      1000
      (codes "k1")
      (codes "a")
      (dto true)
      before
    ≡ (on, answered)
unfolding upsert_config saved_and_scheduled schedule_config deterministic_jitter hash
turned_on = refl

abbrev off : Tables
off = record {
  configs = new_config (codes "k1") (codes "a") (dto false) ∷ [];
  schedulers = other_one ∷ [];
}

turned_off :
    upsert_config js
      (ok (some (codes "10.0.0.1")))
      true
      2000
      (codes "k2")
      (codes "a")
      (dto false)
      on
    ≡ (off, answered)
unfolding upsert_config saved_and_scheduled schedule_config
turned_off = refl

upsert_config-IsPolled_example :
    IsPolled true 5 1000 (codes "a") on
    × ((x : Scheduler) → x.device_id ≢ codes "a" → Elem x on.schedulers ↔ Elem x before.schedulers)
upsert_config-IsPolled_example =
    upsert_config-IsPolled js (some (codes "10.0.0.1")) true 1000 (codes "k1") (codes "a")
      (dto true) before on turned_on
