-- ===== src/Snmp/Service/Writes/Sent.antt =====
-- From a preview to the device: what a run sends is what was previewed.
use management_app.Base.{
  ◌≡◌, ◌≢◌, refl, sym, ◌∙◌, ap, inl, inr, true, ◌&&◌, some, find, Elem, Elem-of_find, find-none,
  Option-cases, Result, ok,
}
use mathlib.Core.Path.{subst}
use management_app.Text.Sets.{same_iff}
use management_app.Snmp.Contracts.{Failure, SetTemplate, SetVarbind, validate_set_template}
use management_app.Snmp.Sets.Laws.{Allows, run_sent}
use management_app.Snmp.Service.Writes.{
  WriteRequest, Tables, Run, System, has_id, stored_parameters, job_of, sent_by,
}
use management_app.Snmp.Service.Writes.Spec.{Stage, waiting, submitted, phase_of, view}
use management_app.Snmp.Service.Writes.Views.{phase-submitted}
use management_app.Snmp.Service.Writes.Kept.{IsSound}
use management_app.Snmp.Service.Writes.Steps.{Reachable}
use management_app.Snmp.Service.Writes.Safe.{Reachable-IsSafe}

view_lem :
    (s : Tables) (r : WriteRequest)
    → IsSound s
    → Elem r s.requests
    → find (has_id r.id) s.requests ≡ some r
view_lem s r u m = elim (Option-cases (find (has_id r.id) s.requests)) [
  | inl e ↦
      let missed = find-none (has_id r.id) r s.requests e m in
      let self = (same_iff r.id r.id).1 refl in absurd (cc)
  | inr (q, e) ↦
      let (n, k) = Elem-of_find (has_id r.id) q s.requests e in
      e ∙ ap some (u.one q r n m ((same_iff q.id r.id).0 k))
]

one_template : {a b : SetTemplate} → ◌≡◌ {A = Result Failure SetTemplate} (ok a) (ok b) → a ≡ b
one_template h = cc

-- Whatever a run sends to a device, in any order of calls and of the steps of runs, is what the template
-- of one request allows, the only one with this job, that was previewed, submitted and has started; the
-- settings that the run has read allow it, the credential is one for writing, and the run has taken
-- the lock.
pub run-Allows :
    (s : System) (u : Run) (v : SetVarbind)
    → Reachable s
    → Elem u s.runs
    → Elem v (sent_by u)
    → (r : WriteRequest) × Elem r s.tables.requests
      × ((q : WriteRequest) → Elem q s.tables.requests → q.job_id ≡ some u.job → q ≡ r)
      × ((p : Stage) × (p ≢ waiting) × (view s.tables r.id ≡ submitted r.template (some u.job) p))
      × Allows r.template v
      × (u.world.has_address && u.world.set_enabled && u.world.config_enabled
            && u.world.is_write_credential && u.world.lock_is_free
          ≡ true)
run-Allows s u v reached m sent =
    let safe = Reachable-IsSafe s reached in
    let h = safe.rows u m in
    let (cleared, (t, e, allowed)) = run_sent (job_of u.world u.request) u.world.device v sent in
    let good =
      subst (λ (x : SetTemplate). validate_set_template (some (stored_parameters x)) ≡ ok x)
        h.template (safe.sound.valid h.row h.member) in
    let template : t ≡ h.row.template = one_template (sym e ∙ good) ∙ sym h.template in
    let (p, seen, late) = phase-submitted h.row h.late.0 in
    (
      h.row,
      h.member,
      (λ q n i. safe.sound.single u.job q h.row n h.member i h.job),
      (
        p,
        late h.late.1,
        ap phase_of (view_lem s.tables h.row safe.sound h.member)
            ∙ seen
            ∙ ap (λ j. submitted h.row.template j p) h.job,
      ),
      subst (λ x. Allows x v) template allowed,
      cleared,
    )
