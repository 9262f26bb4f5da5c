-- ===== src/Snmp/Service/Jobs/Tests.antt =====
-- A poll is asked for twice at once, which makes two.
use management_app.Base.{◌≡◌, refl, true, none, some, [], ◌∷◌, ok, ◌>>=◌, List, err}
use management_app.Text.{codes}
use management_app.Snmp.Credentials.{v2c}
use management_app.Snmp.Service.{taken}
use management_app.Snmp.Service.Secrets.{Credential, read, purpose_of}
use management_app.Snmp.Service.Schedule.{Config, new_config}
use management_app.Snmp.Polls.Drifts
use management_app.Snmp.Service.Drifts.{Drift, review_drift}
use management_app.Snmp.Service.Jobs.{
  poll, Job, pending, Tables, poll_checks, test_checks, scheduled_job,
}
use management_app.Snmp.Service.Jobs.Single.{Call, System}
use management_app.Snmp.Toy.{sealed}

abbrev config : Config
config = new_config (codes "k1") (codes "d1") (record {
  enabled = true;
  port = none;
  interval_minutes = none;
  timeout_ms = none;
  retries = none;
  compatibility_sha1 = none;
})

abbrev router : Credential
router = record {
  id = codes "c1";
  device_id = codes "d1";
  purpose = read;
  label = none;
  stored = record {
    version = v2c;
    username = none;
    auth_protocol = none;
    priv_protocol = none;
    envelope = sealed;
  };
  enabled = true;
  last_test_status = none;
}

abbrev before : Tables
before = record { configs = config ∷ []; credentials = router ∷ []; jobs = []; queue = [] }

abbrev first : Job
first = record {
  id = codes "j1";
  device_id = codes "d1";
  credential_id = codes "c1";
  type = poll;
  status = pending;
  requested_by = some (codes "ana");
}

abbrev second : Job
second = record first { id = codes "j2"; requested_by = some (codes "rui") }

abbrev polled : Tables
polled = record before { jobs = first ∷ []; queue = codes "j1" ∷ [] }

abbrev twice : Tables
twice = record before { jobs = first ∷ second ∷ []; queue = codes "j1" ∷ codes "j2" ∷ [] }

refused_later : poll_checks (ok tt) (codes "d1") polled ≡ err (taken "SNMP_JOB_ALREADY_ACTIVE")
unfolding poll_checks
refused_later = refl

abbrev of_ana : Call
of_ana = record { id = codes "j1"; device = codes "d1"; user = codes "ana"; credential = router }

abbrev of_rui : Call
of_rui = record { id = codes "j2"; device = codes "d1"; user = codes "rui"; credential = router }

abbrev with_calls : Tables → List Call → System
with_calls t calls = record { tables = t; calls = calls }

abbrev both : Tables
both = record polled { jobs = first ∷ record first { id = codes "j3"; requested_by = none } ∷ [] }

scheduled_too : scheduled_job (codes "j3") (codes "k1") polled ≡ both
unfolding scheduled_job
scheduled_too = refl

unknown_purpose :
    test_checks (ok tt) (codes "d1") "OWN" before ≡ purpose_of "OWN" >>= λ p. ok router
unfolding test_checks purpose_of
unknown_purpose = refl

abbrev drift : Drift
drift = record {
  id = codes "f1";
  device_id = codes "d1";
  status = Drifts.pending;
  reviewed_by = none;
  reviewed_at = none;
}

reviewed_drift :
    review_drift (λ device. ok tt) (codes "f1") Drifts.accepted (codes "ana") 7 (drift ∷ [])
    ≡ ok (
        record drift {
          status = Drifts.accepted;
          reviewed_by = some (codes "ana");
          reviewed_at = some 7;
        }
        ∷ [])
unfolding review_drift
reviewed_drift = refl
