-- ===== src/Snmp/Service/Writes/Steps.antt =====
-- The calls of the service and the runs of the worker as steps, and what they keep true.
use management_app.Base.{
  ◌≡◌, ◌≢◌, refl, sym, ◌∙◌, inl, inr, Bool, true, Option, some, List, [], ◌∷◌, ◌++◌, map, any, Elem,
  Elem-append_left, Elem-map, Result, ok, guard_bind,
}
use mathlib.Core.Path.{subst}
use management_app.Text.{Text}
use management_app.Text.Sets.{same_iff}
use management_app.Snmp.Sets
use management_app.Snmp.Contracts.{Failure}
use management_app.Snmp.Service.Secrets.{Fault}
use management_app.Snmp.Service.Writes.{
  WriteRequest, SetJob, DeviceInterface, Tables, PreviewDto, preview_write, has_id, is_claimable,
  claimed_by, execute_claim, enqueued, World, Run, System, outcome_of, request_started, at,
  is_started, started_tables, start_run, end_run, recover_pending_jobs,
}
use management_app.Snmp.Service.Writes.Kept.{IsSound, IsNewJob}
use management_app.Snmp.Service.Writes.Claims.{claimed_cases, claimed_tables}
use management_app.Snmp.Service.Writes.Runs.{IsLate, IsTurn, started-IsTurn, at-IsTurn}

-- A claim is of a request as it was read at some time before; its job is put in the queue, unless that
-- fails. A run takes two steps, between which others come; of its second step, the transaction that
-- completes it may fail, and that of the `catch` block. BullMQ gives a job again whose worker has stalled.
pub data Step : System → System → Type 0 where
  previews :
      (permitted : Result Fault (Unit {0})) (id device user : Text) (dto : PreviewDto)
      (s t : Tables) (runs : List Run)
      → ((r : WriteRequest) → Elem r s.requests → r.id ≢ id)
      → preview_write permitted id device user dto s ≡ ok t
      → Step (record { tables = s; runs = runs }) (record { tables = t; runs = runs })
  claims :
      (queue_answers : Bool) (job user : Text) (request : WriteRequest) (credential : Text)
      (s t : Tables) (runs : List Run)
      → IsNewJob job s
      → execute_claim job user request credential s ≡ ok t
      → Step
          (record { tables = s; runs = runs })
          (record { tables = enqueued queue_answers job t; runs = runs })
  starts :
      (w : World) (job : Text) (s : System) → Elem job s.tables.queue → Step s (start_run w job s)
  ends :
      (fault : Option Failure) (saved : Bool) (before after : List Run) (u : Run) (s : Tables)
      → Step
          (record { tables = s; runs = before ++ u ∷ after })
          (record { tables = end_run fault saved u s; runs = before ++ after })
  recovers :
      (queue_answers : Text → Bool) (s : Tables) (runs : List Run)
      → Step
          (record { tables = s; runs = runs })
          (record { tables = recover_pending_jobs queue_answers s; runs = runs })
  redelivers :
      (b : SetJob) (s : Tables) (runs : List Run)
      → Elem b s.jobs
      → Step
          (record { tables = s; runs = runs })
          (record { tables = record s { queue = s.queue ++ b.id ∷ [] }; runs = runs })

pub data Reachable : System → Type 0 where
  start :
      (interfaces : List DeviceInterface)
      → Reachable (record {
        tables = record { interfaces = interfaces; requests = []; jobs = []; queue = [] };
        runs = [];
      })
  next : (s t : System) → Reachable s → Step s t → Reachable t

-- The row of a run is there, as it was read but for its status; it has started.
pub record HasRow (s : Tables) (u : Run) : Type 0 where
  pub row : WriteRequest
  pub member : Elem row s.requests
  pub id : row.id ≡ u.request.id
  pub template : row.template ≡ u.request.template
  pub job : row.job_id ≡ some u.job
  pub late : IsLate row.status

pub record IsSafe (s : System) : Type 0 where
  pub sound : IsSound s.tables
  pub rows : (u : Run) → Elem u s.runs → HasRow s.tables u

pub claim-tables :
    (job user : Text) (request : WriteRequest) (credential : Text) (s t : Tables)
    → execute_claim job user request credential s ≡ ok t
    → claimed_tables job user request credential s ≡ t
unfolding execute_claim
claim-tables job user request credential s t h =
    let (found, k) = guard_bind (any (is_claimable request.id) s.requests) _ _ h in cc

pub preview-HasRow :
    (s : Tables) (new : WriteRequest) (u : Run)
    → HasRow s u
    → HasRow (record s { requests = s.requests ++ new ∷ [] }) u
preview-HasRow s new u h = record {
  row = h.row;
  member = Elem-append_left h.row s.requests (new ∷ []) h.member;
  id = h.id;
  template = h.template;
  job = h.job;
  late = h.late;
}

pub claim-HasRow :
    (job user : Text) (request : WriteRequest) (credential : Text) (s : Tables) (u : Run)
    → HasRow s u
    → HasRow (claimed_tables job user request credential s) u
claim-HasRow job user request credential s u h = elim (claimed_cases request.id job h.row) [
  | inl (_, p, _) ↦ absurd (h.late.0 p)
  | inr k ↦ record {
    row = h.row;
    member =
        subst (λ x. Elem x (map (claimed_by request.id job) s.requests)) k
          (Elem-map (claimed_by request.id job) h.row s.requests h.member);
    id = h.id;
    template = h.template;
    job = h.job;
    late = h.late;
  }
]

-- A row that has started is still there after a turn of any row.
pub turn-HasRow :
    (f : WriteRequest → WriteRequest) (s t : Tables) (u : Run)
    → IsTurn f
    → t.requests ≡ map f s.requests
    → HasRow s u
    → HasRow t u
turn-HasRow f s t u turn e h = record {
  row = f h.row;
  member = subst (Elem (f h.row)) (sym e) (Elem-map f h.row s.requests h.member);
  id = turn.id h.row ∙ h.id;
  template = turn.template h.row ∙ h.template;
  job = turn.job h.row ∙ h.job;
  late = elim (turn.late h.row) [ inl k ↦ rw k h.late | inr k ↦ k ];
}

abbrev pub start_change : World → WriteRequest → WriteRequest → WriteRequest
start_change w r = at r.id (request_started (outcome_of w r).request (outcome_of w r).request_error)

pub start_change-IsTurn : (w : World) (r : WriteRequest) → IsTurn (start_change w r)
start_change-IsTurn w r =
    at-IsTurn r.id _ (started-IsTurn (outcome_of w r).request (outcome_of w r).request_error)

started-IsLate :
    (x : Sets.Status) (code : Option Text) (r : WriteRequest)
    → is_started x ≡ true
    → IsLate (request_started x code r).status
started-IsLate Sets.queued code r h = absurd (cc)
started-IsLate Sets.blocked code r h = absurd (cc)
started-IsLate Sets.completed code r h = ((λ e. cc), (λ e. cc))
started-IsLate Sets.failed code r h = ((λ e. cc), (λ e. cc))
started-IsLate Sets.needs_attention code r h = ((λ e. cc), (λ e. cc))

-- The row of a run that has just started.
pub new-HasRow :
    (w : World) (job : Text) (r : WriteRequest) (s : Tables)
    → Elem r s.requests
    → r.job_id ≡ some job
    → is_started (outcome_of w r).request ≡ true
    → HasRow (started_tables w job r s) (record { world = w; job = job; request = r })
new-HasRow w job r s m i h =
    let turn = start_change-IsTurn w r in
    let self : has_id r.id r ≡ true = (same_iff r.id r.id).1 refl in
    let e : start_change w r r
        ≡ request_started (outcome_of w r).request (outcome_of w r).request_error r =
      rw self refl in
    record {
      row = start_change w r r;
      member = Elem-map (start_change w r) r s.requests m;
      id = turn.id r;
      template = turn.template r;
      job = turn.job r ∙ i;
      late =
          subst (λ (x : WriteRequest). IsLate x.status) (sym e)
            (started-IsLate (outcome_of w r).request (outcome_of w r).request_error r h);
    }
