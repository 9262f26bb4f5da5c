-- ===== src/Snmp/Service/Jobs/Single.antt =====
-- How many polls of a device can be active at once: `poll` counts the active ones and then makes its own,
-- and other calls come between.
use management_app.Base.{
  ℕ, ◌<◌, ◌+◌, ◌≤◌, ◌≡◌, String, Bool, true, false, ◌&&◌, Option, none, some, List, [], ◌∷◌, ◌++◌,
  map, filter, length, if◌then◌else◌, Result, ok,
}
use management_app.Text.{Text}
use management_app.Text.Sets.{same}
use management_app.Snmp.Service.Secrets.{Fault, Credential}
use management_app.Snmp.Service.Schedule
use management_app.Snmp.Service.Schedule.{Config}
use management_app.Snmp.Service.Jobs.{
  JobStatus, Job, Tables, is_active, is_active_poll, poll_checks, create_poll, test_credential,
  scheduled_job,
}

abbrev is_by_user : Option Text → Bool
is_by_user none = false
is_by_user (some t) = true

-- A poll of the device that a user asked for and that has not ended.
abbrev pub is_asked : Text → Job → Bool
is_asked device j = is_active_poll device j && is_by_user j.requested_by

-- A call of `poll` that has passed its checks, with the credential it has read.
pub record Call : Type 0 where
  pub id : Text
  pub device : Text
  pub user : Text
  pub credential : Credential

-- The tables, and the calls between their checks and their job.
pub record System : Type 0 where
  pub tables : Tables
  pub calls : List Call

abbrev pub is_for : Text → Call → Bool
is_for device c = same c.device device

-- The worker writes a status of a job; BullMQ does not give it a job that has ended again.
abbrev pub moved : Text → JobStatus → Job → Job
moved id status j = if same j.id id && is_active j.status then record j { status = status } else j

-- `most` is how many calls of a device may stand between their checks and their job.
pub data Step (most : ℕ) : System → System → Type 0 where
  checks :
      (permitted : Result Fault (Unit {0})) (c : Call) (s : System)
      → poll_checks permitted c.device s.tables ≡ ok c.credential
      → length (filter (is_for c.device) s.calls) < most
      → Step most s (record s { calls = s.calls ++ c ∷ [] })
  creates :
      (answers : Bool) (before after : List Call) (c : Call) (t : Tables)
      → Step most
          (record { tables = t; calls = before ++ c ∷ after })
          (record {
            tables = (create_poll answers c.id c.device c.user c.credential t).0;
            calls = before ++ after;
          })
  tests :
      (permitted : Result Fault (Unit {0})) (answers : Bool) (id device : Text) (purpose : String)
      (user : Text) (s : System)
      → Step most s (record s {
        tables = (test_credential permitted answers id device purpose user s.tables).0;
      })
  schedules :
      (id config : Text) (s : System)
      → Step most s (record s { tables = scheduled_job id config s.tables })
  moves :
      (id : Text) (status : JobStatus) (s : System)
      → Step most s
          (record s { tables = record s.tables { jobs = map (moved id status) s.tables.jobs } })
  others :
      (configs : List Config) (credentials : List Credential) (s : System)
      → Step most s
          (record s { tables = record s.tables { configs = configs; credentials = credentials } })

pub data Reachable (most : ℕ) : System → Type 0 where
  start :
      (configs : List Config) (credentials : List Credential)
      → Reachable most (record {
        tables = record { configs = configs; credentials = credentials; jobs = []; queue = [] };
        calls = [];
      })
  next : (s t : System) → Reachable most s → Step most s t → Reachable most t

abbrev asked : Text → List Job → ℕ
asked device jobs = length (filter (is_asked device) jobs)

-- The active polls of a device and the calls that will make one.
abbrev IsBounded : ℕ → System → Type 0
IsBounded most s =
    (device : Text) → asked device s.tables.jobs + length (filter (is_for device) s.calls) ≤ most
