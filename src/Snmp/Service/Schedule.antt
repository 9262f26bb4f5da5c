-- ===== src/Snmp/Service/Schedule.antt =====
-- The configuration of a device in snmp.service.ts (`upsertConfig`) and the scheduler of its polls
-- (`scheduleConfig`, `reconcileSchedulers`, `deterministicJitter`).
pub mod Laws
mod Tests
use management_app.Base.{
  ℕ, ◌+◌, ◌*◌, ◌%◌, ◌^◌, ◌≡◌, String, Bool, true, false, not, ◌&&◌, Option, none, some, List, [],
  ◌∷◌, ◌++◌, map, filter, find, any, leb, if◌then◌else◌, Result, ok, err, eqb,
}
use management_app.Base.HttpError.{bad_request}
use management_app.Text.{Text}
use management_app.Text.Sets.{same}
use management_app.Discovery.Networks.{Platform}
use management_app.Snmp.Service.Secrets.{Fault, http}

-- A row of `SnmpDeviceConfig`.
pub record Config : Type 0 where
  pub id : Text
  pub device_id : Text
  pub enabled : Bool
  pub port : ℕ
  pub interval_minutes : ℕ
  pub timeout_ms : ℕ
  pub retries : ℕ
  pub compatibility_sha1 : Bool
  pub next_poll_at : Option ℕ
  pub last_error_code : Option String

-- A job scheduler of the queue, whose id is made from the device's.
pub record Scheduler : Type 0 where
  pub device_id : Text
  pub every : ℕ
  pub start_date : ℕ
  pub config_id : Text

pub record Tables : Type 0 where
  pub configs : List Config
  pub schedulers : List Scheduler

-- `UpsertSnmpConfigDto`
pub record ConfigDto : Type 0 where
  pub enabled : Bool
  pub port : Option ℕ
  pub interval_minutes : Option ℕ
  pub timeout_ms : Option ℕ
  pub retries : Option ℕ
  pub compatibility_sha1 : Option Bool

abbrev pub or_number : Option ℕ → ℕ → ℕ
or_number none n = n
or_number (some m) n = m

abbrev pub or_false : Option Bool → Bool
or_false none = false
or_false (some b) = b

-- `reduce`, on an id whose characters are all of one code unit; `>>> 0` keeps 32 bits.
unfoldable pub hash : ℕ → Text → ℕ
hash sum [] = sum
hash sum (c ∷ t) = hash ((sum * 31 + c) % 2 ^ 32) t

abbrev pub at_least_one : ℕ → ℕ
at_least_one n = if eqb n 0 then 1 else n

unfoldable pub deterministic_jitter : Text → ℕ → ℕ
unfolding hash
deterministic_jitter value max = hash 0 value % at_least_one max

abbrev pub every_of : ℕ → ℕ
every_of minutes = minutes * 60 * 1000

-- `Math.min(every / 4, 60_000)`; the quarter of a number of minutes is a whole number.
abbrev pub most_jitter : ℕ → ℕ
most_jitter minutes = if leb (minutes * 15 * 1000) 60000 then minutes * 15 * 1000 else 60000

abbrev pub jitter_of : Config → ℕ
jitter_of c = deterministic_jitter c.device_id (most_jitter c.interval_minutes)

abbrev pub is_of : Text → Scheduler → Bool
is_of device s = same s.device_id device

abbrev pub has_id : Text → Config → Bool
has_id id c = same c.id id

abbrev pub others : Text → List Scheduler → List Scheduler
others device xs = filter (λ (x : Scheduler). not (is_of device x)) xs

abbrev pub scheduler_of : ℕ → Config → Scheduler
scheduler_of now c = record {
  device_id = c.device_id;
  every = every_of c.interval_minutes;
  start_date = now + jitter_of c;
  config_id = c.id;
}

-- What is written of a config that is scheduled; the queue throws where it does not answer.
unfoldable pub schedule_config : Bool → ℕ → Config → Tables → Option Tables
schedule_config queue_answers now c s =
    if not queue_answers
    then none
    else if c.enabled
    then some (record {
      schedulers = others c.device_id s.schedulers ++ scheduler_of now c ∷ [];
      configs =
          map
            (λ (x : Config).
              if has_id c.id x
              then record x { next_poll_at = some (now + jitter_of c); last_error_code = none }
              else x)
            s.configs;
    })
    else some (record {
      schedulers = others c.device_id s.schedulers;
      configs =
          map (λ (x : Config). if has_id c.id x then record x { next_poll_at = none } else x)
            s.configs;
    })

-- `data`, over what the row keeps.
abbrev pub written : ConfigDto → Config → Config
written dto c = record c {
  enabled = dto.enabled;
  port = or_number dto.port 161;
  interval_minutes = or_number dto.interval_minutes 15;
  timeout_ms = or_number dto.timeout_ms 5000;
  retries = or_number dto.retries 2;
  compatibility_sha1 = or_false dto.compatibility_sha1;
}

abbrev pub new_config : Text → Text → ConfigDto → Config
new_config id device dto = written dto (record {
  id = id;
  device_id = device;
  enabled = false;
  port = 161;
  interval_minutes = 15;
  timeout_ms = 5000;
  retries = 2;
  compatibility_sha1 = false;
  next_poll_at = none;
  last_error_code = none;
})

abbrev pub is_on : Text → Config → Bool
is_on device c = same c.device_id device

-- How a call ends: with an answer, an HTTP exception or an error of the queue.
pub data Ending : Type 0 where
  answered : Ending
  refused : Fault → Ending
  queue_failed : Ending

abbrev pub put_config : Config → Option Config → List Config → List Config
put_config row none cs = cs ++ row ∷ []
put_config row (some old) cs = map (λ (x : Config). if has_id old.id x then row else x) cs

abbrev pub row_of : Text → Text → ConfigDto → Option Config → Config
row_of id device dto none = new_config id device dto
row_of id device dto (some old) = written dto old

abbrev pub is_address : Platform → Option Text → Bool
is_address js none = false
is_address js (some t) = not (eqb (js.is_ip t) 0)

abbrev pub scheduled_or : Tables → Option Tables → Tables × Ending
scheduled_or s none = (s, queue_failed)
scheduled_or s (some t) = (t, answered)

unfoldable pub saved_and_scheduled : Bool → ℕ → Config → Option Config → Tables → Tables × Ending
unfolding schedule_config
saved_and_scheduled queue_answers now row old s =
    let saved : Tables = record s { configs = put_config row old s.configs } in
    scheduled_or saved (schedule_config queue_answers now row saved)

-- `device` is the management address of the device that the checks find. A configuration is saved also
-- where the queue then fails.
unfoldable pub upsert_config :
    Platform
    → Result Fault (Option Text)
    → Bool
    → ℕ
    → Text
    → Text
    → ConfigDto
    → Tables
    → Tables × Ending
unfolding saved_and_scheduled
upsert_config js (err f) queue_answers now id device dto s = (s, refused f)
upsert_config js (ok address) queue_answers now id device dto s =
    if not (is_address js address)
    then (s, refused (http (bad_request "SNMP_MANAGEMENT_IP_REQUIRED")))
    else saved_and_scheduled queue_answers now
        (row_of id device dto (find (is_on device) s.configs)) (find (is_on device) s.configs) s

abbrev pub unavailable : Text → List Config → List Config
unavailable id cs =
    map
      (λ (x : Config).
        if has_id id x
        then record x { next_poll_at = none; last_error_code = some "SNMP_QUEUE_UNAVAILABLE" }
        else x)
      cs

-- The loop at the start of the module, over the enabled configurations that were read.
unfoldable pub reconcile_schedulers : (Text → Bool) → ℕ → List Config → Tables → Tables
unfolding schedule_config
reconcile_schedulers queue_answers now [] s = s
reconcile_schedulers queue_answers now (c ∷ cs) s =
    reconcile_schedulers queue_answers now cs
      (elim (schedule_config (queue_answers c.device_id) now c s) [
        | none ↦ record s { configs = unavailable c.id s.configs }
        | some t ↦ t
      ])
