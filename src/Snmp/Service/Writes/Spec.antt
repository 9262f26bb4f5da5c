-- ===== src/Snmp/Service/Writes/Spec.antt =====
-- What a write request promises: it is drafted and submitted once, with one job; only then it starts, only
-- a request that has started ends, and it never goes back. A job that BullMQ gives to a worker again
-- starts it again.
use management_app.Base.{◌≢◌, Option, none, some, find}
use management_app.Text.{Text}
use management_app.Snmp.Contracts.{SetTemplate}
use management_app.Snmp.Service.Writes.{
  preview, pending, running, completed, failed, blocked, needs_attention, WriteRequest, Tables,
  has_id,
}

pub data End : Type 0 where
  done refused broken doubtful : End

pub data Stage : Type 0 where
  waiting underway : Stage
  ended : End → Stage

-- A request that is submitted carries its job.
pub data Phase : Type 0 where
  absent : Phase
  drafted : SetTemplate → Phase
  submitted : SetTemplate → Option Text → Stage → Phase

pub data Turn : Stage → Stage → Type 0 where
  starts : (p : Stage) → Turn p underway
  refuses : (p : Stage) → Turn p (ended refused)
  ends : (p : Stage) (e : End) → p ≢ waiting → Turn p (ended e)

pub data Step : Phase → Phase → Type 0 where
  drafts : (t : SetTemplate) → Step absent (drafted t)
  submits : (t : SetTemplate) (job : Text) → Step (drafted t) (submitted t (some job) waiting)
  turns :
      (t : SetTemplate) (job : Text) (p q : Stage)
      → Turn p q
      → Step (submitted t (some job) p) (submitted t (some job) q)

abbrev pub phase : WriteRequest → Phase
phase r = elim r.status [
  | preview ↦ drafted r.template
  | pending ↦ submitted r.template r.job_id waiting
  | running ↦ submitted r.template r.job_id underway
  | completed ↦ submitted r.template r.job_id (ended done)
  | failed ↦ submitted r.template r.job_id (ended broken)
  | blocked ↦ submitted r.template r.job_id (ended refused)
  | needs_attention ↦ submitted r.template r.job_id (ended doubtful)
]

abbrev pub phase_of : Option WriteRequest → Phase
phase_of none = absent
phase_of (some r) = phase r

-- The view of a request that forgets the tables.
abbrev pub view : Tables → Text → Phase
view s id = phase_of (find (has_id id) s.requests)
