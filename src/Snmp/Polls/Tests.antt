-- ===== src/Snmp/Polls/Tests.antt =====
-- Polls at concrete inputs.
use management_app.Base.{◌≡◌, refl, ◌⊎◌, ◌↔◌, true, false, none, some, [], ◌∷◌, Elem, map, ok, err}
use management_app.Base.Int.{pos}
use management_app.Base.Number.{integer}
use management_app.Text.{Text, codes, lower}
use management_app.Snmp.Contracts.{plain, public_error_code, is_public_code, mentions}
use management_app.Snmp.Polls.Drifts
use management_app.Snmp.Polls.Drifts.{
  Documented, Observed, Poll, Drift, hostname, admin_up, text, flag, accepted, drift, by_name,
  documented_of, difference, get, replace_drifts, is_open_of,
}
use management_app.Snmp.Polls.Drifts.Kept.{IsHostDrift, IsInterfaceDrift, replace_drifts_iff}
use management_app.Snmp.Polls.{
  Status, pending, completed, blocked, JobRow, Snapshot, Faults, Config, Db, Job, World, run,
  scheduled, is_enabled,
}
use management_app.Snmp.Polls.Scheduled.{Fate, scheduled_ends}

abbrev to_lower : Text → Text
to_lower = map lower

abbrev port : Documented
port = record {
  id = codes "i1";
  name = codes "Gi0/1";
  port_key = none;
  description = none;
  admin_up = some true;
  mac_address = none;
  speed_mbps = some (integer (pos 1000));
}

abbrev seen : Observed
seen = record {
  if_index = 1;
  name = some (codes "gi0/1");
  description = none;
  admin_up = some false;
  mac_address = none;
  speed_mbps = some (integer (pos 1000));
}

abbrev answer : Poll
answer = record { sys_name = some (codes "sw2"); interfaces = seen ∷ [] }

abbrev old_one : Drift
old_one = drift (codes "d1") none (codes "s0") hostname (text (codes "sw1"), text (codes "sw3"))

abbrev reviewed : Drift
reviewed = record old_one { status = accepted }

abbrev named : Drift
named = drift (codes "d1") none (codes "s1") hostname (text (codes "sw1"), text (codes "sw2"))

abbrev switched_off : Drift
switched_off = drift (codes "d1") (some (codes "i1")) (codes "s1") admin_up (flag true, flag false)

replaced :
    replace_drifts
      (codes "d1")
      (codes "s1")
      (some (codes "sw1"))
      to_lower
      (by_name to_lower (port ∷ []))
      answer
      (old_one ∷ reviewed ∷ [])
    ≡ reviewed ∷ named ∷ switched_off ∷ []
unfolding replace_drifts get documented_of difference
replaced = refl

replace_drifts_iff_example :
    Elem named (
      replace_drifts
        (codes "d1")
        (codes "s1")
        (some (codes "sw1"))
        to_lower
        (by_name to_lower (port ∷ []))
        answer
        (old_one ∷ reviewed ∷ []))
    ↔ ((Elem named (old_one ∷ reviewed ∷ [])
          × (¬ ((named.device ≡ codes "d1") × (named.status ≡ Drifts.pending))))
        ⊎ (IsHostDrift (codes "d1") (codes "s1") (some (codes "sw1")) answer named
            ⊎ IsInterfaceDrift
                (codes "d1")
                (codes "s1")
                to_lower
                (by_name to_lower (port ∷ []))
                answer
                named))
replace_drifts_iff_example =
    replace_drifts_iff (codes "d1") (codes "s1") (some (codes "sw1")) to_lower
      (by_name to_lower (port ∷ [])) answer (old_one ∷ reviewed ∷ []) named

abbrev config : Config
config = record {
  enabled = true;
  interval_minutes = 5;
  last_poll_at = none;
  next_poll_at = none;
  last_status = none;
  last_error_code = none;
}

abbrev db : Db
db = record {
  job = some (record { status = pending; error_code = none });
  config = some config;
  tested = none;
  documented = port ∷ [];
  snapshots = [];
  drifts = old_one ∷ reviewed ∷ [];
}

abbrev job : Job
job = record { device = codes "d1"; hostname = some (codes "sw1"); is_valid = true }

abbrev healthy : Faults
healthy = record {
  read = none;
  read_config = none;
  start = none;
  interfaces = none;
  snapshot = none;
  drifts = none;
  finish = none;
  failure = none;
  block = none;
}

abbrev world : World
world = record {
  lock = ok true;
  faults = healthy;
  session = ok tt;
  polled = ok answer;
  now = 1000;
  snapshot_id = codes "s1";
  lower = to_lower;
}

abbrev locked : World
locked = record world { lock = ok false }

abbrev silent : World
silent = record world { polled = err (plain (codes "Request timed out: timeout")) }

next_poll :
    map
      (λ (c : Config). c.next_poll_at)
      (elim (run job world db).0.config [ none ↦ [] | some c ↦ c ∷ [] ])
    ≡ some 301000 ∷ []
unfolding run
next_poll = refl

timed_out :
    (run job silent db).0.job
    ≡ some (record {
      status = management_app.Snmp.Polls.failed;
      error_code = some (codes "SNMP_TIMEOUT");
    })
unfolding run public_error_code is_public_code mentions
timed_out = refl

busy_device :
    (scheduled true job locked db).0.job
    ≡ some (record { status = blocked; error_code = some (codes "SNMP_DEVICE_BUSY") })
unfolding scheduled public_error_code is_public_code
busy_device = refl

-- The end of a poll cannot be written.
abbrev half_done : World
half_done = record world { faults = record healthy { finish = some (plain (codes "db")) } }

kept_snapshot : map (λ (x : Snapshot). x.id) (run job half_done db).0.snapshots ≡ codes "s1" ∷ []
unfolding run public_error_code is_public_code mentions
kept_snapshot = refl

scheduled_ends_example :
    (r : JobRow) × ((scheduled true job locked db).0.job ≡ some r) × Fate locked r.status
scheduled_ends_example = scheduled_ends job locked db refl refl
