-- ===== src/Settings/RoleRequests/Ends.antt =====
-- A grant, a failure and the end of a call keep the tables sound.
use management_app.Base.{
  ℕ, ◌≡◌, refl, sym, inl, inr, arith, String, false, List, [], ◌∷◌, ◌++◌, map, any, eq_iff, All,
  All-append, Elem-append_left, Elem-append_right, Bool-cases, if◌then◌else◌, ok, guard_bind,
}
use mathlib.Core.Path.{subst}
use management_app.Settings.RoleRequests.{
  Request, Status, pending, processing, approved, rejected, is_active, update_where, is_closable,
  closed, finalize,
}
use management_app.Settings.RoleRequests.Steps.{Task, granting, finishing, State, grant_of}
use management_app.Settings.RoleRequests.Rows.{
  Claimed, IsGranted, TaskFits, IsSound, All-weaken, TaskFits-weaken, closed-IsProgress, split-All,
}
use management_app.Settings.RoleRequests.Calls.{Fulfils, progressed, kept_tasks}

module _ (s : State) (sound : IsSound s) where
  pub grants-IsSound :
      (before after : List Task) (reviewer : String) (r : Request)
      → s.running ≡ before ++ granting reviewer r ∷ after
      → IsSound (record s {
        granted = s.granted ++ grant_of r ∷ [];
        running = before ++ finishing reviewer approved r.id ∷ after;
      })
  grants-IsSound before after reviewer r e =
      let (earlier, now, later) =
        split-All (TaskFits s) before (granting reviewer r) after
          (subst (All (TaskFits s)) e sound.tasks) in
      let next : State = record s {
        granted = s.granted ++ grant_of r ∷ [];
        running = before ++ finishing reviewer approved r.id ∷ after;
      } in
      let keep = TaskFits-weaken s next (λ g c. c) more in
      record {
        asked = sound.asked;
        single = sound.single;
        entitled =
            All-append (Claimed s.requests) s.granted (grant_of r ∷ []) sound.entitled (now, tt);
        fulfilled =
            All-weaken (λ (q : Request). q.status ≡ approved → IsGranted s.granted q.id)
              (λ (q : Request). q.status ≡ approved → IsGranted (s.granted ++ grant_of r ∷ []) q.id)
              s.requests (λ q f h. more q.id (f h)) sound.fulfilled;
        tasks =
            All-append (TaskFits next) before (finishing reviewer approved r.id ∷ after)
              (All-weaken (TaskFits s) (TaskFits next) before keep earlier)
              (
                (
                  grant_of r,
                  Elem-append_right (grant_of r) s.granted (grant_of r ∷ []) (inl refl),
                  refl,
                ),
                All-weaken (TaskFits s) (TaskFits next) after keep later,
              );
      }
    where
      more : (id : String) → IsGranted s.granted id → IsGranted (s.granted ++ grant_of r ∷ []) id
      more id (g, m, i) = (g, Elem-append_left g s.granted (grant_of r ∷ []) m, i)

  pub fails-IsSound :
      (before after : List Task) (t : Task)
      → s.running ≡ before ++ t ∷ after
      → IsSound (record s { running = before ++ after })
  fails-IsSound before after t e =
      let (earlier, now, later) =
        split-All (TaskFits s) before t after (subst (All (TaskFits s)) e sound.tasks) in
      let next : State = record s { running = before ++ after } in
      let keep = TaskFits-weaken s next (λ g c. c) (λ id g. g) in
      record {
        asked = sound.asked;
        single = sound.single;
        entitled = sound.entitled;
        fulfilled = sound.fulfilled;
        tasks =
            All-append (TaskFits next) before after
              (All-weaken (TaskFits s) (TaskFits next) before keep earlier)
              (All-weaken (TaskFits s) (TaskFits next) after keep later);
      }

  pub finishes-IsSound :
      (before after : List Task) (reviewer id : String) (status : Status) (now : ℕ)
      (next : List Request)
      → s.running ≡ before ++ finishing reviewer status id ∷ after
      → finalize status id reviewer now s.requests ≡ ok next
      → IsSound (record s { requests = next; running = before ++ after })
  unfolding finalize update_where
  finishes-IsSound before after reviewer id status now next e h =
      let (earlier, fits, later) =
        split-All (TaskFits s) before (finishing reviewer status id) after
          (subst (All (TaskFits s)) e sound.tasks) in
      let change = λ (q : Request). if is_closable id q then closed status reviewer now q else q in
      let (found, h1) = guard_bind (any (is_closable id) s.requests) _ _ h in
      let same_rows : map change s.requests ≡ next = cc in
      let p = closed-IsProgress status id reviewer now (final status fits) in
      subst (λ (t : List Request). IsSound (record s { requests = t; running = before ++ after }))
        same_rows
        (progressed s sound change (before ++ after) p (fulfils status fits) (
          kept_tasks s sound change (before ++ after) (before ++ after) p
            (All-append (TaskFits s) before after earlier later)))
    where
      final :
          (status : Status) → TaskFits s (finishing reviewer status id) → is_active status ≡ false
      final pending fits = absurd fits
      final processing fits = absurd fits
      final approved fits = refl
      final rejected fits = refl

      fulfils :
          (status : Status)
          → TaskFits s (finishing reviewer status id)
          → Fulfils s.granted
              (λ (q : Request). if is_closable id q then closed status reviewer now q else q)
      fulfils pending fits = absurd fits
      fulfils processing fits = absurd fits
      fulfils rejected fits = λ r k. ground arith
      fulfils approved fits = λ r k. elim (Bool-cases (is_closable id r)) [
        | inr other ↦ inl (ground arith)
        | inl hit ↦ inr (
            let named : r.id ≡ id = (eq_iff r.id id).0 (ground arith) in
            rw hit (subst (IsGranted s.granted) (sym named) fits))
      ]
