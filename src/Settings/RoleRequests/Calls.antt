-- ===== src/Settings/RoleRequests/Calls.antt =====
-- `submit` and the claim of `decide` keep the tables sound.
use management_app.Base.{
  ℕ, ◌≡◌, ◌≢◌, refl, sym, ap, ◌⊎◌, inl, inr, arith, String, true, false, not, ◌&&◌, ◌||◌, none,
  List, [], ◌∷◌, ◌++◌, map, any, find, ◌==◌, All, Elem, All-append, All-Elem, All-of_Elem,
  Elem-append_left, Elem-of_map, Elem-of_find, if◌then◌else◌, ok, or_throw_bind, guard_bind,
}
use management_app.Collections.Texts.{includes, unique}
use mathlib.Core.Path.{subst}
use management_app.Settings.RoleRequests.{
  Request, pending, approved, is_invalid, is_open_of, submit, Decision, approve, reject,
  is_claimable, is_approve, is_processing, claimed, update_where, claim,
}
use management_app.Settings.RoleRequests.Steps.{Grant, Task, task_of, State}
use management_app.Settings.RoleRequests.Rows.{
  AsksAllowed, Claimed, IsGranted, TaskFits, IsSound, IsProgress, Claimed-map, asked-map,
  AllAlone-map, All-weaken, TaskFits-weaken, claimed-IsProgress, claimed_status, snoc-AllAlone,
  Alone-new, AsksAllowed-valid,
}

-- No row is approved that was not, unless its request was granted.
abbrev pub Fulfils : List Grant → (Request → Request) → Type 0
Fulfils granted change =
    (r : Request)
    → (change r).status ≡ approved
    → (r.status ≡ approved) ⊎ IsGranted granted (change r).id

module _ (s : State) (sound : IsSound s) where
  pub progressed :
      (change : Request → Request) (running : List Task)
      → IsProgress change
      → Fulfils s.granted change
      → All (TaskFits (record s { requests = map change s.requests; running = running })) running
      → IsSound (record s { requests = map change s.requests; running = running })
  progressed change running p f fits = record {
    asked = asked-map change p s.requests sound.asked;
    single = AllAlone-map change p s.requests sound.single;
    entitled =
        All-weaken (Claimed s.requests) (Claimed (map change s.requests)) s.granted
          (Claimed-map change p s.requests) sound.entitled;
    fulfilled =
        All-of_Elem (λ (r : Request). r.status ≡ approved → IsGranted s.granted r.id)
          (map change s.requests) still;
    tasks = fits;
  }
    where
      still :
          (r : Request)
          → Elem r (map change s.requests)
          → r.status ≡ approved
          → IsGranted s.granted r.id
      still r m h =
          let (q, mq, e) = Elem-of_map change r s.requests m in
          let was = f q (subst (λ (r : Request). r.status ≡ approved) e h) in
          subst (λ (r : Request). IsGranted s.granted r.id) (sym e)
            (elim was [
              | inr new ↦ new
              | inl old ↦
                  let ids = ap (λ (g : Grant). g.request_id) (p.same q) in
                  subst (IsGranted s.granted) (sym ids) (
                    All-Elem (λ (r : Request). r.status ≡ approved → IsGranted s.granted r.id)
                      s.requests sound.fulfilled mq old)
            ])

  pub kept_tasks :
      (change : Request → Request) (ks running : List Task)
      → IsProgress change
      → All (TaskFits s) ks
      → All (TaskFits (record s { requests = map change s.requests; running = running })) ks
  kept_tasks change ks running p =
      All-weaken (TaskFits s)
        (TaskFits (record s { requests = map change s.requests; running = running })) ks
        (TaskFits-weaken s (record s { requests = map change s.requests; running = running })
          (Claimed-map change p s.requests) (λ id g. g))

  pub added-IsSound :
      (n : Request)
      → n.status ≡ pending
      → AsksAllowed n.roles
      → any (is_open_of n.user_id) s.requests ≡ false
      → IsSound (record s { requests = s.requests ++ n ∷ [] })
  added-IsSound n p allowed free = record {
    asked =
        All-append (λ (r : Request). AsksAllowed r.roles) s.requests (n ∷ []) sound.asked
          (allowed, tt);
    single = snoc-AllAlone n s.requests sound.single (Alone-new n s.requests free);
    entitled =
        All-weaken (Claimed s.requests) (Claimed (s.requests ++ n ∷ [])) s.granted more
          sound.entitled;
    fulfilled =
        All-append (λ (r : Request). r.status ≡ approved → IsGranted s.granted r.id) s.requests
          (n ∷ []) sound.fulfilled ((λ h. absurd (cc)), tt);
    tasks =
        All-weaken (TaskFits s) (TaskFits (record s { requests = s.requests ++ n ∷ [] })) s.running
          (TaskFits-weaken s (record s { requests = s.requests ++ n ∷ [] }) more (λ id g. g))
          sound.tasks;
  }
    where
      more : (g : Grant) → Claimed s.requests g → Claimed (s.requests ++ n ∷ []) g
      more g (r, m, e, c) = (r, Elem-append_left r s.requests (n ∷ []) m, e, c)

  pub submits-IsSound :
      (effective : List String) (user id : String) (input : List String) (next : List Request)
      → submit effective user id input s.requests ≡ ok next
      → IsSound (record s { requests = next })
  unfolding submit
  submits-IsSound effective user id input next h =
      let (valid, h1) = guard_bind (not (is_invalid (unique input))) _ _ h in
      let (fresh, h2) = guard_bind (not (any (λ r. includes r effective) (unique input))) _ _ h1 in
      let (free, h3) = guard_bind (not (any (is_open_of user) s.requests)) _ _ h2 in
      let asked_for : Request = record {
        id = id;
        user_id = user;
        roles = unique input;
        status = pending;
        reviewer_id = none;
        processing_at = none;
        decided_at = none;
      } in
      let e : s.requests ++ asked_for ∷ [] ≡ next = cc in
      subst (λ (t : List Request). IsSound (record s { requests = t })) e
        (added-IsSound asked_for refl (AsksAllowed-valid (unique input) (ground arith))
          (ground arith))

  pub claimed-IsSound :
      (d : Decision) (id reviewer : String) (now : ℕ) (r : Request)
      → Elem r (
          map (λ (q : Request). if is_claimable id q then claimed reviewer now q else q) s.requests)
      → r.id == id ≡ true
      → IsSound (record s {
        requests =
            map
              (λ (q : Request). if is_claimable id q then claimed reviewer now q else q)
              s.requests;
        running = s.running ++ task_of reviewer d r ∷ [];
      })
  claimed-IsSound d id reviewer now r m named =
      progressed change (s.running ++ task_of reviewer d r ∷ []) p (λ q h. inl (ground arith))
        (All-append (TaskFits next) s.running (task_of reviewer d r ∷ [])
          (kept_tasks change s.running (s.running ++ task_of reviewer d r ∷ []) p sound.tasks)
          (fits d, tt))
    where
      change : Request → Request
      change q = if is_claimable id q then claimed reviewer now q else q

      p : IsProgress change
      p = claimed-IsProgress id reviewer now

      next : State
      next = record s {
        requests = map change s.requests;
        running = s.running ++ task_of reviewer d r ∷ [];
      }

      fits :
          (d : Decision)
          → TaskFits
              (record s {
                requests = map change s.requests;
                running = s.running ++ task_of reviewer d r ∷ [];
              })
              (task_of reviewer d r)
      fits reject = tt
      fits approve =
          let (q, mq, e) = Elem-of_map change r s.requests m in
          (
            r,
            m,
            refl,
            subst (λ (r : Request). r.id == id ≡ true → r.status ≢ pending) (sym e)
                (claimed_status id reviewer now q) named,
          )

  pub claims-IsSound :
      (d : Decision) (id reviewer : String) (now : ℕ) (next : List Request) (r : Request)
      → claim d id reviewer now s.requests ≡ ok (next, r)
      → IsSound (record s { requests = next; running = s.running ++ task_of reviewer d r ∷ [] })
  unfolding claim update_where
  claims-IsSound d id reviewer now next r h =
      let change = λ (q : Request). if is_claimable id q then claimed reviewer now q else q in
      let (q, found, h1) =
        or_throw_bind (find (λ (q : Request). q.id == id) (map change s.requests)) _ _ h in
      let (passed, h2) =
        guard_bind (any (is_claimable id) s.requests || is_approve d && is_processing q.status) _ _
          h1 in
      let e : map change s.requests ≡ next = cc in
      let f : q ≡ r = cc in
      let (m, named) = Elem-of_find (λ (q : Request). q.id == id) q (map change s.requests) found in
      subst
        (λ (t : List Request).
          IsSound (record s { requests = t; running = s.running ++ task_of reviewer d r ∷ [] }))
        e
        (subst
          (λ (r : Request). IsSound (record s {
            requests = map change s.requests;
            running = s.running ++ task_of reviewer d r ∷ [];
          }))
          f (claimed-IsSound d id reviewer now q m named))
