-- ===== src/Snmp/Polls.antt =====
-- poll.ts: a device is asked for its state, which becomes a snapshot and a list of drifts. What the
-- device, the lock and the database answer are parameters; the audit is left out.
pub mod Drifts
pub mod Outcomes
pub mod Scheduled
mod Tests
use management_app.Base.{
  ℕ, ◌+◌, ◌*◌, Bool, true, false, not, ◌&&◌, Option, none, some, List, [], ◌∷◌, ◌++◌, map,
  if◌then◌else◌, Result, ok, err,
}
use management_app.Text.{Text, codes}
use management_app.Text.Sets.{same}
use management_app.Snmp.Contracts.{Failure, plain, coded, public_error_code}
use management_app.Snmp.Polls.Drifts.{
  Documented, Poll, Drift, by_name, documented_of, replace_drifts,
}

pub data Status : Type 0 where
  pending running completed failed blocked : Status

-- What is stored of a job.
pub record JobRow : Type 0 where
  pub status : Status
  pub error_code : Option Text

-- A row of `SnmpDeviceConfig`.
pub record Config : Type 0 where
  pub enabled : Bool
  pub interval_minutes : ℕ
  pub last_poll_at : Option ℕ
  pub next_poll_at : Option ℕ
  pub last_status : Option Status
  pub last_error_code : Option Text

-- A snapshot, with the ids of the interfaces that its observations are linked to.
pub record Snapshot : Type 0 where
  pub id : Text
  pub device : Text
  pub poll : Poll
  pub links : List (Option Text)

-- The tables, as far as a job reads and writes them; `tested` is the `lastTestStatus` of the credential.
pub record Db : Type 0 where
  pub job : Option JobRow
  pub config : Option Config
  pub tested : Option Status
  pub documented : List Documented
  pub snapshots : List Snapshot
  pub drifts : List Drift

pub record Job : Type 0 where
  pub device : Text
  pub hostname : Option Text
  pub is_valid : Bool

-- The reads and writes that fail, each with what it throws: those of the job and of the configuration
-- before the lock is asked for, in a test that of the configuration, the update to RUNNING, the query of the interfaces, the
-- snapshot, the transactions of the drifts and of the end, that of the `catch` block, and the update to
-- BLOCKED.
pub record Faults : Type 0 where
  pub read : Option Failure
  pub read_config : Option Failure
  pub start : Option Failure
  pub interfaces : Option Failure
  pub snapshot : Option Failure
  pub drifts : Option Failure
  pub finish : Option Failure
  pub failure : Option Failure
  pub block : Option Failure

-- What happens while a job runs: the lock, which is taken or not where Redis answers, the session and the
-- answers, the faults of the database, the time, the id of the snapshot, and `toLowerCase`.
pub record World : Type 0 where
  pub lock : Result Failure Bool
  pub session : Result Failure (Unit {0})
  pub polled : Result Failure Poll
  pub faults : Faults
  pub now : ℕ
  pub snapshot_id : Text
  pub lower : Text → Text

-- A write to the database, and what comes after it.
abbrev pub write : Option Failure → (Db → Db) → Db → Db × Option Failure
write none change db = (change db, none)
write (some e) change db = (db, some e)

abbrev pub and_then : Db × Option Failure → (Db → Db × Option Failure) → Db × Option Failure
and_then (db, none) next = next db
and_then (db, some e) next = (db, some e)

abbrev pub ended : Status → Option Text → Db → Db
ended status code db = record db { job = some (record { status = status; error_code = code }) }

abbrev pub set_config : (Config → Config) → Db → Db
set_config change db = record db {
  config = elim db.config [ none ↦ none | some c ↦ some (change c) ];
}

abbrev pub id_of : Option Documented → Option Text
id_of none = none
id_of (some d) = some d.id

abbrev pub snapshot_of : Job → World → Poll → Db → Snapshot
snapshot_of j w poll db = record {
  id = w.snapshot_id;
  device = j.device;
  poll = poll;
  links =
      map (λ o. id_of (documented_of w.lower (by_name w.lower db.documented) o)) poll.interfaces;
}

abbrev pub with_snapshot : Job → World → Poll → Db → Db
with_snapshot j w poll db = record db { snapshots = db.snapshots ++ snapshot_of j w poll db ∷ [] }

abbrev pub with_drifts : Job → World → Poll → Db → Db
with_drifts j w poll db = record db {
  drifts =
      replace_drifts j.device w.snapshot_id j.hostname w.lower (by_name w.lower db.documented) poll
        db.drifts;
}

abbrev pub finished : World → Config → Db → Db
finished w c db = ended completed none (
    set_config
      (λ x. record x {
        last_poll_at = some w.now;
        next_poll_at = some (w.now + c.interval_minutes * 60 * 1000);
        last_status = some completed;
        last_error_code = none;
      })
      db)

-- The rest of the `try` block, after the answer of the device: one write after the other.
unfoldable pub store : Job → World → Config → Poll → Db → Db × Option Failure
store j w c poll db = and_then (write w.faults.interfaces (λ d. d) db) (λ a.
    and_then (write w.faults.snapshot (with_snapshot j w poll) a) (λ b.
      and_then (write w.faults.drifts (with_drifts j w poll) b)
        (λ d. write w.faults.finish (finished w c) d)))

abbrev pub gave_up : World → Failure → Db → Db
gave_up w e db = ended failed (some (public_error_code e)) (
    set_config
      (λ x. record x {
        last_poll_at = some w.now;
        last_status = some failed;
        last_error_code = some (public_error_code e);
      })
      db)

-- The `catch` block; the error is thrown again, or that of the transaction is.
unfoldable pub give_up : World → Db × Option Failure → Db × Option Failure
give_up w (db, none) = (db, none)
give_up w (db, some e) = and_then (write w.faults.failure (gave_up w e) db) (λ d. (d, some e))

-- The `try` block.
unfoldable pub tried : Job → World → Config → Db → Db × Option Failure
unfolding store
tried j w c db = elim w.session [
  | err e ↦ (db, some e)
  | ok open_session ↦ elim w.polled [ err e ↦ (db, some e) | ok poll ↦ store j w c poll db ]
]

unfoldable pub attempt : Job → World → Config → Db → Db × Option Failure
unfolding tried give_up
attempt j w c db =
    and_then (write w.faults.start (ended running none) db) (λ d. give_up w (tried j w c d))

abbrev pub busy : Failure
busy = coded (codes "SNMP_DEVICE_BUSY")

abbrev pub not_enabled : World → Db → Db × Option Failure
not_enabled w db = write w.faults.block (ended blocked (some (codes "SNMP_NOT_ENABLED"))) db

-- The second component is the error that is thrown.
unfoldable pub locked_run : Job → World → Config → Db → Db × Option Failure
unfolding attempt
locked_run j w c db = if not c.enabled then not_enabled w db else elim w.lock [
  | err e ↦ (db, some e)
  | ok false ↦ (db, some busy)
  | ok true ↦ attempt j w c db
]

unfoldable pub read_run : Job → World → Db → Db × Option Failure
unfolding locked_run
read_run j w db =
    if not j.is_valid
    then (db, some (plain (codes "SNMP_JOB_INVALID")))
    else elim db.config [ none ↦ not_enabled w db | some c ↦ locked_run j w c db ]

unfoldable pub run : Job → World → Db → Db × Option Failure
unfolding read_run
run j w db = and_then (write w.faults.read (λ d. d) db) (λ d. read_run j w d)

abbrev pub is_busy : Failure → Bool
is_busy e = same (public_error_code e) (codes "SNMP_DEVICE_BUSY")

abbrev pub caught : World → Db × Option Failure → Db × Option Failure
caught w (db, none) = (db, none)
caught w (db, some e) =
    if is_busy e
    then write w.faults.block (ended blocked (some (codes "SNMP_DEVICE_BUSY"))) db
    else (db, some e)

abbrev pub is_enabled : Option Config → Bool
is_enabled none = false
is_enabled (some c) = c.enabled

-- `read_credential` is whether the device has an enabled credential for reading.
unfoldable pub scheduled : Bool → Job → World → Db → Db × Option Failure
unfolding run
scheduled read_credential j w db =
    if not (is_enabled db.config)
    then (db, none)
    else if not read_credential
    then (db, some (coded (codes "SNMP_READ_CREDENTIAL_REQUIRED")))
    else caught w (run j w (ended pending none db))

abbrev pub tested_with : Status → Db → Db
tested_with status db = record db { tested = some status }

-- The `try` block of `test`; `answered` is the outcome of the session and its one query.
abbrev pub tested_or : World → Result Failure (Unit {0}) → Db → Db × Option Failure
tested_or w (ok value) db =
    write w.faults.finish (λ d. tested_with completed (ended completed none d)) db
tested_or w (err e) db = (db, some e)

abbrev pub test_failed : World → Db × Option Failure → Db × Option Failure
test_failed w (db, none) = (db, none)
test_failed w (db, some e) =
    and_then
      (write w.faults.failure
        (λ d. tested_with failed (ended failed (some (public_error_code e)) d)) db)
      (λ d. (d, some e))

-- `test`: unlike a poll, it leaves the error code of the job when it starts.
abbrev pub started : Db → Db
started db = record db {
  job = elim db.job [ none ↦ none | some r ↦ some (record r { status = running }) ];
}

unfoldable pub test : Job → World → Result Failure (Unit {0}) → Db → Db × Option Failure
test j w answered db = and_then (write w.faults.read (λ d. d) db) (λ a.
    if not j.is_valid
    then (a, some (plain (codes "SNMP_JOB_INVALID")))
    else and_then (write w.faults.start started a) (λ b.
      and_then (write w.faults.read_config (λ d. d) b)
        (λ c. test_failed w (tested_or w answered c))))
