-- ===== src/Snmp/Service/Writes/Safe.antt =====
-- What the steps of the writes keep true.
use management_app.Base.{
  ◌≡◌, refl, sym, ap, ◌⊎◌, inl, inr, Bool, true, false, Option, some, List, [], ◌∷◌, ◌++◌, find,
  Elem, Elem-append_left, Elem-append_right, Elem-append, Bool-cases, Option-cases,
}
use mathlib.Core.Path.{subst}
use management_app.Text.{Text}
use management_app.Snmp.Contracts.{Failure}
use management_app.Snmp.Service.Exclusive.Rows.{Elem-snoc}
use management_app.Snmp.Service.Writes.{
  WriteRequest, Tables, enqueued, World, Run, System, is_of_job, outcome_of, job_started,
  request_concluded, job_concluded, at, is_started, started_tables, start_run, end_run, conclusion,
  without, recover_pending_jobs,
}
use management_app.Snmp.Service.Writes.Kept.{IsSound, preview_write-kept}
use management_app.Snmp.Service.Writes.Claims.{claim-kept, queue-kept, enqueued-kept}
use management_app.Snmp.Service.Writes.Runs.{
  IsTurn, concluded-IsTurn, started-id, concluded-id, at-IsTurn, turn-kept, found-of_job,
}
use management_app.Snmp.Service.Writes.Steps.{
  Step, previews, claims, starts, ends, recovers, redelivers, Reachable, start, next, HasRow,
  IsSafe, claim-tables, preview-HasRow, claim-HasRow, turn-HasRow, new-HasRow, start_change,
  start_change-IsTurn,
}

-- What a start does.
pub start_run_cases :
    (w : World) (job : Text) (s : System)
    → (start_run w job s
        ≡ record s { tables = record s.tables { queue = without job s.tables.queue } })
      ⊎ ((r : WriteRequest) × Elem r s.tables.requests
          × (r.job_id ≡ some job)
          × ((start_run w job s).tables ≡ started_tables w job r s.tables)
          × (((start_run w job s).runs ≡ s.runs)
              ⊎ ((is_started (outcome_of w r).request ≡ true)
                  × ((start_run w job s).runs
                      ≡ s.runs ++ record { world = w; job = job; request = r } ∷ []))))
unfolding start_run
start_run_cases w job s = elim (Option-cases (find (is_of_job job) s.tables.requests)) [
  | inl e ↦ inl (rw (e, start_run) refl)
  | inr (r, e) ↦
      let (m, i) = found-of_job job s.tables r e in
      inr (
        r,
        m,
        i,
        rw (e, start_run) refl,
        elim (Bool-cases (is_started (outcome_of w r).request)) [
          | inl k ↦ inr (k, rw (e, k, start_run) refl)
          | inr k ↦ inl (rw (e, k, start_run) refl)
        ],
      )
]

same_rows :
    (queue : List Text) (t : Tables) (x : Run) → HasRow t x → HasRow (record t { queue = queue }) x
same_rows queue t x h = record {
  row = h.row;
  member = h.member;
  id = h.id;
  template = h.template;
  job = h.job;
  late = h.late;
}

start_run-kept : (w : World) (job : Text) (s : System) → IsSafe s → IsSafe (start_run w job s)
start_run-kept w job s u = elim (start_run_cases w job s) [
  | inl e ↦ rw e (record {
    sound = queue-kept (without job s.tables.queue) s.tables u.sound;
    rows = λ x m. same_rows (without job s.tables.queue) s.tables x (u.rows x m);
  })
  | inr (r, m, i, e, k) ↦
      let o = outcome_of w r in
      let kept = λ (x : Run) (n : Elem x s.runs).
        turn-HasRow (start_change w r) s.tables (start_run w job s).tables x
          (start_change-IsTurn w r) (ap (λ (y : Tables). y.requests) e) (u.rows x n) in
      record {
        sound = rw e (
            turn-kept (start_change w r) (job_started o.job o.job_error) job _ s.tables
              (start_change-IsTurn w r) (started-id o.job o.job_error) u.sound);
        rows = λ x n. elim k [
          | inl q ↦ kept x (subst (Elem x) q n)
          | inr (h, q) ↦
              elim (Elem-snoc x (record { world = w; job = job; request = r }) s.runs
                (subst (Elem x) q n)) [
                  | inr old ↦ kept x old
                  | inl fresh ↦ subst (HasRow (start_run w job s).tables) (sym fresh) (
                      subst (λ t. HasRow t (record { world = w; job = job; request = r })) (sym e)
                        (new-HasRow w job r s.tables m i h))
                ]
        ];
      }
]

abbrev pub end_change : Option Failure → Run → WriteRequest → WriteRequest
end_change fault u =
    at u.request.id
      (request_concluded (conclusion fault u).request (conclusion fault u).request_error)

pub end_change-IsTurn : (fault : Option Failure) (u : Run) → IsTurn (end_change fault u)
end_change-IsTurn fault u =
    at-IsTurn u.request.id _
      (concluded-IsTurn (conclusion fault u).request (conclusion fault u).request_error)

end_run-kept :
    (fault : Option Failure) (saved : Bool) (u : Run) (s : Tables)
    → IsSound s
    → IsSound (end_run fault saved u s)
unfolding end_run
end_run-kept fault false u s h = h
end_run-kept fault true u s h =
    let o = conclusion fault u in
    turn-kept (end_change fault u) (job_concluded o.job o.job_error) u.job s.queue s
      (end_change-IsTurn fault u) (concluded-id o.job o.job_error) h

end_run-HasRow :
    (fault : Option Failure) (saved : Bool) (u x : Run) (s : Tables)
    → HasRow s x
    → HasRow (end_run fault saved u s) x
unfolding end_run
end_run-HasRow fault false u x s h = h
end_run-HasRow fault true u x s h =
    turn-HasRow (end_change fault u) s (end_run fault true u s) x (end_change-IsTurn fault u) refl h

Elem-rest :
    (x u : Run) (before after : List Run) → Elem x (before ++ after) → Elem x (before ++ u ∷ after)
Elem-rest x u before after m = elim (Elem-append x before after m) [
  | inl n ↦ Elem-append_left x before (u ∷ after) n
  | inr n ↦ Elem-append_right x before (u ∷ after) (inr n)
]

step-IsSafe : (s t : System) → Step s t → IsSafe s → IsSafe t
unfolding recover_pending_jobs
step-IsSafe _ _ (previews permitted id device user dto s t runs fresh h) u =
    let (x, e, sound) = preview_write-kept permitted id device user dto s t u.sound fresh h in
    record {
      sound = sound;
      rows = λ v m. subst (λ y. HasRow y v) e (preview-HasRow s _ v (u.rows v m));
    }
step-IsSafe _ _ (claims answers job user request credential s t runs fresh h) u =
    let e = claim-tables job user request credential s t h in
    record {
      sound =
          enqueued-kept answers job t
            (subst IsSound e (claim-kept job user request credential s u.sound fresh));
      rows = λ v m.
          queued_row answers job t v
            (subst (λ y. HasRow y v) e (claim-HasRow job user request credential s v (u.rows v m)));
    }
  where
    queued_row :
        (b : Bool) (job : Text) (t : Tables) (v : Run) → HasRow t v → HasRow (enqueued b job t) v
    queued_row true job t v h = same_rows (t.queue ++ job ∷ []) t v h
    queued_row false job t v h = h
step-IsSafe _ _ (starts w job s m) u = start_run-kept w job s u
step-IsSafe _ _ (ends fault saved before after v s) u = record {
  sound = end_run-kept fault saved v s u.sound;
  rows = λ x m. end_run-HasRow fault saved v x s (u.rows x (Elem-rest x v before after m));
}
step-IsSafe _ _ (recovers answers s runs) u = record {
  sound = queue-kept _ s u.sound;
  rows = λ x m. same_rows _ s x (u.rows x m);
}
step-IsSafe _ _ (redelivers b s runs m) u = record {
  sound = queue-kept (s.queue ++ b.id ∷ []) s u.sound;
  rows = λ x n. same_rows (s.queue ++ b.id ∷ []) s x (u.rows x n);
}

pub Reachable-IsSafe : (s : System) → Reachable s → IsSafe s
Reachable-IsSafe _ (start interfaces) = record {
  sound = record {
    one = λ r q m. absurd m;
    single = λ j r q m. absurd m;
    unclaimed = λ r m. absurd m;
    has_job = λ j r m. absurd m;
    valid = λ r m. absurd m;
  };
  rows = λ u m. absurd m;
}
Reachable-IsSafe _ (next s t r h) = step-IsSafe s t h (Reachable-IsSafe s r)
