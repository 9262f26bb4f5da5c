-- ===== src/Snmp/Service/Jobs.antt =====
-- Polls and tests of credentials that a user asks for (`poll`, `testCredential` of snmp.service.ts), with
-- the scheduled polls of poll.ts beside them.
pub mod Single
mod Tests
use management_app.Base.{
  ℕ, ◌≡◌, String, Bool, true, false, not, ◌&&◌, Option, none, some, List, [], ◌∷◌, ◌++◌, map, find,
  any, if◌then◌else◌, Result, ok, err, ◌>>=◌, ◌>>◌, guard, or_throw,
}
use management_app.Base.HttpError.{not_found}
use management_app.Text.{Text}
use management_app.Text.Sets.{same}
use management_app.Snmp.Service.{is_of, taken}
use management_app.Snmp.Service.Secrets.{Fault, http, Purpose, read, Credential, purpose_of}
use management_app.Snmp.Service.Schedule
use management_app.Snmp.Service.Schedule.{Config, is_on, Ending, answered, refused, queue_failed}

pub data JobType : Type 0 where
  poll credential_test set : JobType

pub data JobStatus : Type 0 where
  pending running completed failed blocked : JobStatus

-- A row of `SnmpJob`; a scheduled job was requested by nobody.
pub record Job : Type 0 where
  pub id : Text
  pub device_id : Text
  pub credential_id : Text
  pub type : JobType
  pub status : JobStatus
  pub requested_by : Option Text

pub record Tables : Type 0 where
  pub configs : List Config
  pub credentials : List Credential
  pub jobs : List Job
  pub queue : List Text

abbrev pub is_poll : JobType → Bool
is_poll poll = true
is_poll _ = false

-- `status: { in: ['PENDING', 'RUNNING'] }`
abbrev pub is_active : JobStatus → Bool
is_active pending = true
is_active running = true
is_active _ = false

abbrev pub is_active_poll : Text → Job → Bool
is_active_poll device j = same j.device_id device && (is_poll j.type && is_active j.status)

abbrev pub is_enabled : Option Config → Bool
is_enabled none = false
is_enabled (some c) = c.enabled

abbrev pub with_job : Text → Text → JobType → Option Text → Credential → Tables → Tables
with_job id device type user credential s = record s {
  jobs =
      s.jobs
      ++ record {
        id = id;
        device_id = device;
        credential_id = credential.id;
        type = type;
        status = pending;
        requested_by = user;
      }
        ∷ [];
}

-- `queue.add`; a job that it does not take stays pending.
abbrev pub queued : Bool → Text → Tables → Tables × Ending
queued queue_answers id s =
    if queue_answers then (record s { queue = s.queue ++ id ∷ [] }, answered) else (s, queue_failed)

unfoldable pub poll_checks : Result Fault (Unit {0}) → Text → Tables → Result Fault Credential
poll_checks permitted device s = do
  permitted
  guard (is_enabled (find (is_on device) s.configs)) (taken "SNMP_NOT_ENABLED")
  credential ←
      or_throw (find (is_of device read) s.credentials) (taken "SNMP_READ_CREDENTIAL_REQUIRED")
  guard (not (any (is_active_poll device) s.jobs)) (taken "SNMP_JOB_ALREADY_ACTIVE")
  ok credential

-- What `poll` does after its checks, on the tables as it finds them then: other calls may come between,
-- since nothing locks the count of the active polls.
unfoldable pub create_poll : Bool → Text → Text → Text → Credential → Tables → Tables × Ending
create_poll queue_answers id device user credential s =
    queued queue_answers id (with_job id device poll (some user) credential s)

unfoldable pub test_checks :
    Result Fault (Unit {0}) → Text → String → Tables → Result Fault Credential
unfolding purpose_of
test_checks permitted device purpose s = do
  p ← purpose_of purpose
  permitted
  or_throw (find (is_of device p) s.credentials) (http (not_found "Credencial SNMP não encontrada"))

unfoldable pub test_credential :
    Result Fault (Unit {0}) → Bool → Text → Text → String → Text → Tables → Tables × Ending
unfolding test_checks
test_credential permitted queue_answers id device purpose user s =
    elim (test_checks permitted device purpose s) [
      | err f ↦ (s, refused f)
      | ok credential ↦
          queued queue_answers id (with_job id device credential_test (some user) credential s)
    ]

-- The job that `scheduled` of poll.ts makes for a configuration, where it makes one.
abbrev pub usable : Option Credential → Option Credential
usable none = none
usable (some c) = if c.enabled then some c else none

unfoldable pub scheduled_job : Text → Text → Tables → Tables
scheduled_job id config s = elim (find (Schedule.has_id config) s.configs) [
  | none ↦ s
  | some c ↦ elim (usable (find (is_of c.device_id read) s.credentials)) [
    | none ↦ s
    | some credential ↦ if c.enabled then with_job id c.device_id poll none credential s else s
  ]
]
