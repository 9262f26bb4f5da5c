-- ===== src/Snmp/Service/Writes.antt =====
-- `previewWrite` and `executeWrite` of snmp.service.ts, and the run of their jobs by the worker: a write
-- to a device is previewed, claimed once, and run. Ids of new rows are arguments.
pub mod Spec
pub mod Stored
pub mod Kept
pub mod Claims
pub mod Runs
pub mod Views
pub mod Steps
pub mod Safe
pub mod Refines
pub mod Sent
mod Tests
use management_app.Base.{
  ℕ, zero, suc, ◌≡◌, String, Bool, true, false, not, ◌&&◌, ◌||◌, Option, none, some, List, [], ◌∷◌,
  ◌++◌, map, filter, find, any, if◌then◌else◌, Result, ok, err, ◌>>=◌, ◌>>◌, guard, or_throw,
}
use management_app.Base.HttpError.{HttpError, not_found, forbidden}
use management_app.Text.{Text, codes}
use management_app.Text.Sets.{same}
use management_app.Snmp.Contracts.{
  Failure, Field, text, boolean, no_field, Parameters, SetTemplate, SetVarbind,
  interface_admin_status, system_identity, validate_set_template,
}
use management_app.Snmp.Sets
use management_app.Snmp.Service.Jobs
use management_app.Snmp.Service.{taken}
use management_app.Snmp.Service.Secrets.{Fault, http, bad}

-- `SnmpWriteStatus`, without RUNNING, which a request has only while a run is under way.
pub data WriteStatus : Type 0 where
  preview pending running completed failed blocked needs_attention : WriteStatus

-- A row of `SnmpWriteRequest`; `template` is what `parameters` and `desiredValues` hold.
pub record WriteRequest : Type 0 where
  pub id : Text
  pub device_id : Text
  pub job_id : Option Text
  pub operation : Text
  pub template : SetTemplate
  pub status : WriteStatus
  pub requested_by : Text
  pub error_code : Option Text

-- A row of `SnmpJob` of the type SET.
pub record SetJob : Type 0 where
  pub id : Text
  pub device_id : Text
  pub credential_id : Text
  pub requested_by : Text
  pub status : Jobs.JobStatus
  pub error_code : Option Text

pub record DeviceInterface : Type 0 where
  pub id : Text
  pub device_id : Text

-- The tables, and the ids of the jobs that wait in the queue.
pub record Tables : Type 0 where
  pub interfaces : List DeviceInterface
  pub requests : List WriteRequest
  pub jobs : List SetJob
  pub queue : List Text

-- `CreateSnmpWritePreviewDto`; `own_operation` is the key `operation` of the parameters, if it is there.
pub record PreviewDto : Type 0 where
  pub operation : Text
  pub own_operation : Option Field
  pub parameters : Parameters

-- `{ operation: dto.operation, ...dto.parameters }`
abbrev pub merged : PreviewDto → Parameters
merged dto = record dto.parameters {
  operation = elim dto.own_operation [ none ↦ text dto.operation | some f ↦ f ];
}

abbrev pub is_on : Text → Text → DeviceInterface → Bool
is_on id device i = same i.id id && same i.device_id device

unfoldable pub assert_interface :
    List DeviceInterface → Text → SetTemplate → Result Fault (Unit {0})
assert_interface interfaces device (system_identity name location) = ok tt
assert_interface interfaces device (interface_admin_status id up) =
    guard (any (is_on id device) interfaces) (bad "SNMP_INTERFACE_DEVICE_MISMATCH")

abbrev pub valid_template : PreviewDto → Result Fault SetTemplate
valid_template dto = elim (validate_set_template (some (merged dto))) [
  | ok t ↦ ok t
  | err e ↦ err (bad "SNMP_SET_TEMPLATE_INVALID")
]

abbrev pub previewed : Text → Text → Text → PreviewDto → SetTemplate → WriteRequest
previewed id device user dto t = record {
  id = id;
  device_id = device;
  job_id = none;
  operation = dto.operation;
  template = t;
  status = preview;
  requested_by = user;
  error_code = none;
}

unfoldable pub preview_write :
    Result Fault (Unit {0}) → Text → Text → Text → PreviewDto → Tables → Result Fault Tables
unfolding assert_interface
preview_write permitted id device user dto s = do
  permitted
  t ← valid_template dto
  assert_interface s.interfaces device t
  ok (record s { requests = s.requests ++ previewed id device user dto t ∷ [] })

abbrev pub has_id : Text → WriteRequest → Bool
has_id id r = same r.id id

abbrev pub is_preview : WriteStatus → Bool
is_preview preview = true
is_preview _ = false

-- The checks before the transaction: the request as it is read, and the credential for writing that
-- `credential_of` finds for its device.
unfoldable pub execute_checks :
    Bool
    → (Text → Result Fault (Unit {0}))
    → (Text → Option Text)
    → Text
    → Tables
    → Result Fault (WriteRequest × Text)
execute_checks set_enabled permitted credential_of id s = do
  guard set_enabled (http (forbidden "SNMP_SET_DISABLED"))
  request ←
      or_throw (find (has_id id) s.requests) (http (not_found "Pedido SNMP SET não encontrado"))
  guard (is_preview request.status) (taken "SNMP_SET_REQUEST_NOT_PREVIEW")
  permitted request.device_id
  credential ← or_throw (credential_of request.device_id) (taken "SNMP_WRITE_CREDENTIAL_REQUIRED")
  ok (request, credential)

-- `where: { id, status: 'PREVIEW' }`
abbrev pub is_claimable : Text → WriteRequest → Bool
is_claimable id r = has_id id r && is_preview r.status

abbrev pub claimed_by : Text → Text → WriteRequest → WriteRequest
claimed_by id job r =
    if is_claimable id r then record r { status = pending; job_id = some job } else r

-- The transaction, on the tables as it finds them.
unfoldable pub execute_claim : Text → Text → WriteRequest → Text → Tables → Result Fault Tables
execute_claim job user request credential s = do
  guard (any (is_claimable request.id) s.requests) (taken "SNMP_SET_REQUEST_ALREADY_CLAIMED")
  ok (record s {
    requests = map (claimed_by request.id job) s.requests;
    jobs =
        s.jobs
        ++ record {
          id = job;
          device_id = request.device_id;
          credential_id = credential;
          requested_by = user;
          status = Jobs.pending;
          error_code = none;
        }
          ∷ [];
  })

-- `queue.add`, which may fail.
abbrev pub enqueued : Bool → Text → Tables → Tables
enqueued queue_answers job s = if queue_answers then record s { queue = s.queue ++ job ∷ [] } else s

unfoldable pub execute_write :
    Bool
    → (Text → Result Fault (Unit {0}))
    → (Text → Option Text)
    → Bool
    → Text
    → Text
    → Text
    → Tables
    → Result Fault Tables
unfolding execute_checks execute_claim
execute_write set_enabled permitted credential_of queue_answers job user id s = do
  found ← execute_checks set_enabled permitted credential_of id s
  t ← execute_claim job user found.0 found.1 s
  ok (enqueued queue_answers job t)

-- The stored JSON of a template, as the worker reads it.
abbrev pub field_of : Option Text → Field
field_of none = no_field
field_of (some t) = text t

unfoldable pub stored_parameters : SetTemplate → Parameters
stored_parameters (interface_admin_status id up) = record {
  operation = text (codes "INTERFACE_ADMIN_STATUS");
  interface_id = text id;
  admin_up = boolean up;
  sys_name = no_field;
  sys_location = no_field;
}
stored_parameters (system_identity name location) = record {
  operation = text (codes "SYSTEM_IDENTITY");
  interface_id = no_field;
  admin_up = no_field;
  sys_name = field_of name;
  sys_location = field_of location;
}

-- What a run finds besides the request: the settings, the credential's purpose and the lock.
pub record World : Type 0 where
  pub has_address : Bool
  pub set_enabled : Bool
  pub config_enabled : Bool
  pub is_write_credential : Bool
  pub lock_is_free : Bool
  pub device : Sets.Device

abbrev pub is_of_job : Text → WriteRequest → Bool
is_of_job job r = elim r.job_id [ none ↦ false | some j ↦ same j job ]

abbrev pub job_of : World → WriteRequest → Sets.Job
job_of w r = record {
  is_valid = w.has_address;
  set_enabled = w.set_enabled;
  config_enabled = w.config_enabled;
  is_write_credential = w.is_write_credential;
  lock_is_free = w.lock_is_free;
  parameters = some (stored_parameters r.template);
}

-- What a run of the whole `set.run` would write where nothing fails; the parts of it that are written are
-- below. A run that does not start writes nothing: index.ts returns the promise without awaiting it in
-- its `try`, so that its `catch` does not see `SNMP_DEVICE_BUSY`.
abbrev pub outcome_of : World → WriteRequest → Sets.Outcome
outcome_of w r = Sets.run (job_of w r) w.device

-- The first transaction: BLOCKED by the settings, or RUNNING once the lock is taken.
abbrev pub request_started : Sets.Status → Option Text → WriteRequest → WriteRequest
request_started Sets.queued code r = r
request_started Sets.blocked code r = record r { status = blocked; error_code = code }
request_started _ code r = record r { status = running }

abbrev pub job_started : Sets.Status → Option Text → SetJob → SetJob
job_started Sets.queued code j = j
job_started Sets.blocked code j = record j { status = Jobs.blocked; error_code = code }
job_started _ code j = record j { status = Jobs.running }

-- The last transaction, of the `try` block or of the `catch` block.
abbrev pub request_concluded : Sets.Status → Option Text → WriteRequest → WriteRequest
request_concluded Sets.completed code r = record r { status = completed }
request_concluded Sets.failed code r = record r { status = failed; error_code = code }
request_concluded Sets.needs_attention code r = record r {
  status = needs_attention;
  error_code = code;
}
request_concluded _ code r = r

abbrev pub job_concluded : Sets.Status → Option Text → SetJob → SetJob
job_concluded Sets.completed code j = record j { status = Jobs.completed }
job_concluded Sets.failed code j = record j { status = Jobs.failed; error_code = code }
job_concluded _ code j = j

abbrev pub at : Text → (WriteRequest → WriteRequest) → WriteRequest → WriteRequest
at id change r = if has_id id r then change r else r

abbrev pub at_job : Text → (SetJob → SetJob) → SetJob → SetJob
at_job id change j = if same j.id id then change j else j

abbrev pub without : Text → List Text → List Text
without job queue = filter (λ j. not (same j job)) queue

-- A run between its two transactions, with the row of the request as it has read it.
pub record Run : Type 0 where
  pub world : World
  pub job : Text
  pub request : WriteRequest

-- The tables, and the runs that have started.
pub record System : Type 0 where
  pub tables : Tables
  pub runs : List Run

abbrev pub is_started : Sets.Status → Bool
is_started Sets.completed = true
is_started Sets.failed = true
is_started Sets.needs_attention = true
is_started _ = false

abbrev pub started_tables : World → Text → WriteRequest → Tables → Tables
started_tables w job r s =
    let o = outcome_of w r in
    record s {
      queue = without job s.queue;
      requests = map (at r.id (request_started o.request o.request_error)) s.requests;
      jobs = map (at_job job (job_started o.job o.job_error)) s.jobs;
    }

-- The worker takes a job from the queue, and reads the request that names it, whatever its status is.
unfoldable pub start_run : World → Text → System → System
start_run w job s = elim (find (is_of_job job) s.tables.requests) [
  | none ↦ record s { tables = record s.tables { queue = without job s.tables.queue } }
  | some r ↦ record {
    tables = started_tables w job r s.tables;
    runs =
        if is_started (outcome_of w r).request
        then s.runs ++ record { world = w; job = job; request = r } ∷ []
        else s.runs;
  }
]

abbrev pub is_completed : Sets.Status → Bool
is_completed Sets.completed = true
is_completed _ = false

-- What a run has to write at its end. Where the transaction that completes it fails, with `fault`, the
-- `catch` block writes that error.
abbrev pub conclusion : Option Failure → Run → Sets.Outcome
conclusion fault u =
    let o = outcome_of u.world u.request in
    elim fault [
      | none ↦ o
      | some e ↦
          if is_completed o.request
          then Sets.concluded (record { result = err e; before = o.before_values; sent = o.sent })
          else o
    ]

-- A run has ended; `saved` is whether the last transaction that it tries has succeeded.
unfoldable pub end_run : Option Failure → Bool → Run → Tables → Tables
end_run fault saved u s =
    let o = conclusion fault u in
    if saved
    then record s {
      requests = map (at u.request.id (request_concluded o.request o.request_error)) s.requests;
      jobs = map (at_job u.job (job_concluded o.job o.job_error)) s.jobs;
    }
    else s

-- What the run sends to the device.
abbrev pub sent_by : Run → List SetVarbind
sent_by u = (outcome_of u.world u.request).sent

abbrev pub is_waiting : Jobs.JobStatus → Bool
is_waiting Jobs.pending = true
is_waiting _ = false

-- `recoverPendingJobs` of the worker: the jobs that wait are put in the queue again, where their id is
-- not there and the queue takes them. `found` is what the query gives, 500 jobs at most.
unfoldable pub requeue : (Text → Bool) → List SetJob → List Text → List Text
requeue queue_answers [] queue = queue
requeue queue_answers (j ∷ js) queue =
    requeue queue_answers js
      (if queue_answers j.id && not (any (same j.id) queue) then queue ++ j.id ∷ [] else queue)

abbrev pub first_jobs : ℕ → List SetJob → List SetJob
first_jobs zero js = []
first_jobs (suc n) [] = []
first_jobs (suc n) (j ∷ js) = j ∷ first_jobs n js

unfoldable pub recover_pending_jobs : (Text → Bool) → Tables → Tables
unfolding requeue
recover_pending_jobs queue_answers s = record s {
  queue =
      requeue queue_answers (first_jobs 500 (filter (λ (j : SetJob). is_waiting j.status) s.jobs))
        s.queue;
}
