-- ===== src/Snmp/Service/Writes/Refines.antt =====
-- The calls of the service and the runs of the worker, in any order, do to each request what a write
-- request promises.
use management_app.Base.{
  ◌≢◌, refl, sym, ◌∙◌, ap, inl, inr, Bool, true, false, Option, none, some, ◌∷◌, Elem-append_right,
}
use mathlib.Core.Path.{subst}
use management_app.Text.{Text}
use management_app.Snmp.Contracts.{Failure}
use management_app.Snmp.Service.Writes.{
  WriteRequest, Tables, enqueued, World, Run, System, outcome_of, start_run, end_run, conclusion,
  recover_pending_jobs,
}
use management_app.Snmp.Service.Writes.Spec.{view}
use management_app.Snmp.Service.Writes.Views.{
  Moves, preview-Moves, claim-Moves, started-Moves, concluded-Moves, at-Moves,
}
use management_app.Snmp.Service.Writes.Kept.{IsSound, preview_write-kept}
use management_app.Snmp.Service.Writes.Claims.{claimed_tables}
use management_app.Snmp.Service.Writes.Runs.{IsLate}
use management_app.Snmp.Service.Writes.Steps.{
  Step, previews, claims, starts, ends, recovers, redelivers, Reachable, HasRow, claim-tables,
  start_change-IsTurn,
}
use management_app.Snmp.Service.Writes.Safe.{start_run_cases, end_change-IsTurn, Reachable-IsSafe}

start-Moves :
    (id : Text) (w : World) (job : Text) (s : System)
    → IsSound s.tables
    → Moves (view s.tables id) (view (start_run w job s).tables id)
start-Moves id w job s u = elim (start_run_cases w job s) [
  | inl e ↦ rw e (inl refl)
  | inr (r, m, i, e, _) ↦
      let turn = start_change-IsTurn w r in
      rw e (
        at-Moves id r.id _ s.tables.requests turn.id (λ q n k.
          let whose = u.one q r n m k in
          started-Moves q job (outcome_of w r).request (outcome_of w r).request_error
            (λ p.
              let no_job = u.unclaimed q n p in
              no_some (sym no_job ∙ ap (λ (x : WriteRequest). x.job_id) whose ∙ i))
            (ap (λ (x : WriteRequest). x.job_id) whose ∙ i)))
]
  where
    no_some : none ≢ some job
    no_some e = cc

end-Moves :
    (id : Text) (fault : Option Failure) (saved : Bool) (u : Run) (s : Tables)
    → IsSound s
    → HasRow s u
    → Moves (view s id) (view (end_run fault saved u s) id)
unfolding end_run
end-Moves id fault false u s sound h = inl refl
end-Moves id fault true u s sound h =
    let o = conclusion fault u in
    let turn = end_change-IsTurn fault u in
    at-Moves id u.request.id _ s.requests turn.id (λ q n k.
      let whose = sound.one q h.row n h.member (k ∙ sym h.id) in
      let late = subst (λ (x : WriteRequest). IsLate x.status) (sym whose) h.late in
      concluded-Moves q u.job o.request o.request_error late.0 late.1
        (ap (λ (x : WriteRequest). x.job_id) whose ∙ h.job))

-- Whatever is previewed, claimed, by however many at once, put in the queue again after a restart, given to
-- a worker again after it has stalled, and run, with other steps between the two halves of a run, the
-- transactions of the second of which may fail: a request that is seen without the tables is drafted, submitted once
-- with one job, and only then starts; only a request that has started ends, unless the settings refuse
-- it; its template and its job never change and it never waits again.
pub Step-Moves :
    (s t : System) (id : Text)
    → Reachable s
    → Step s t
    → Moves (view s.tables id) (view t.tables id)
unfolding recover_pending_jobs
Step-Moves _ _ id reached (previews permitted new device user dto s t runs fresh h) =
    let (x, e, _) =
      preview_write-kept permitted new device user dto s t (Reachable-IsSafe _ reached).sound fresh
        h in
    subst (λ (y : Tables). Moves (view s id) (view y id)) e
      (preview-Moves id new device user dto x s.requests)
Step-Moves _ _ id reached (claims answers job user request credential s t runs fresh h) =
    subst (λ (y : Tables). Moves (view s id) (view (enqueued answers job y) id))
      (claim-tables job user request credential s t h) (by_answer answers)
  where
    by_answer :
        (b : Bool)
        → Moves
            (view s id)
            (view (enqueued b job (claimed_tables job user request credential s)) id)
    by_answer true = claim-Moves id request.id job s.requests
    by_answer false = claim-Moves id request.id job s.requests
Step-Moves _ _ id reached (starts w job s m) =
    start-Moves id w job s (Reachable-IsSafe s reached).sound
Step-Moves _ _ id reached (ends fault saved before after u s) =
    let safe = Reachable-IsSafe _ reached in
    end-Moves id fault saved u s safe.sound
      (safe.rows u (Elem-append_right u before (u ∷ after) (inl refl)))
Step-Moves _ _ id reached (recovers answers s runs) = inl refl
Step-Moves _ _ id reached (redelivers b s runs m) = inl refl
