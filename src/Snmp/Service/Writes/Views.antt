-- ===== src/Snmp/Service/Writes/Views.antt =====
-- What each operation does to the view of one request.
use management_app.Base.{
  ◌≡◌, ◌≢◌, Elem, Elem-of_find, refl, sym, ap, ◌⊎◌, inl, inr, true, false, Option, none, some, List,
  [], ◌∷◌, ◌++◌, map, find, Bool-cases, Option-cases,
}
use mathlib.Core.Path.{subst}
use management_app.Text.{Text}
use management_app.Text.Sets.{same, same_iff}
use management_app.Snmp.Contracts.{SetTemplate}
use management_app.Snmp.Sets
use management_app.Snmp.Service.Writes.{
  WriteStatus, preview, pending, running, completed, failed, blocked, needs_attention, WriteRequest,
  PreviewDto, previewed, has_id, claimed_by, request_started, request_concluded, at,
}
use management_app.Snmp.Service.Writes.Spec.{
  Phase, absent, drafted, submitted, Stage, waiting, underway, ended, done, refused, broken,
  doubtful, Turn, starts, refuses, ends, drafts, submits, turns, phase, phase_of,
}
use management_app.Snmp.Service.Writes.Spec
use management_app.Snmp.Service.Writes.Claims.{claimed_cases}

abbrev pub mapped : (WriteRequest → WriteRequest) → Option WriteRequest → Option WriteRequest
mapped f none = none
mapped f (some r) = some (f r)

pub find-map :
    (f : WriteRequest → WriteRequest) (id : Text) (rs : List WriteRequest)
    → ((r : WriteRequest) → (f r).id ≡ r.id)
    → find (has_id id) (map f rs) ≡ mapped f (find (has_id id) rs)
find-map f id [] h = refl
find-map f id (r ∷ rs) h = elim (Bool-cases (same r.id id)) [
  | inl e ↦ let k = subst (λ i. same i id ≡ true) (sym (h r)) e in rw (k, e) refl
  | inr e ↦ let k = subst (λ i. same i id ≡ false) (sym (h r)) e in rw (k, e) (find-map f id rs h)
]

find-snoc :
    (id : Text) (a : WriteRequest) (rs : List WriteRequest)
    → ((find (has_id id) rs ≡ none)
        × (has_id id a ≡ true)
        × (find (has_id id) (rs ++ a ∷ []) ≡ some a))
      ⊎ (find (has_id id) (rs ++ a ∷ []) ≡ find (has_id id) rs)
find-snoc id a [] = elim (Bool-cases (same a.id id)) [
  | inl e ↦ inl (refl, e, rw e refl)
  | inr e ↦ inr (rw e refl)
]
find-snoc id a (r ∷ rs) = elim (Bool-cases (same r.id id)) [
  | inl e ↦ inr (rw e refl)
  | inr e ↦ rw e (find-snoc id a rs)
]

-- What a step does to the view of one request.
abbrev pub Moves : Phase → Phase → Type 0
Moves p q = (q ≡ p) ⊎ Spec.Step p q

pub same_phase : (p q : Option WriteRequest) → q ≡ p → Moves (phase_of p) (phase_of q)
same_phase p q e = inl (ap phase_of e)

pub preview-Moves :
    (id new device user : Text) (dto : PreviewDto) (x : SetTemplate) (rs : List WriteRequest)
    → Moves
        (phase_of (find (has_id id) rs))
        (phase_of (find (has_id id) (rs ++ previewed new device user dto x ∷ [])))
preview-Moves id new device user dto x rs =
    elim (find-snoc id (previewed new device user dto x) rs) [
      | inl (e, _, f) ↦ inr (rw (e, f) (drafts x))
      | inr e ↦ same_phase _ _ e
    ]

phase-preview : (r : WriteRequest) → r.status ≡ preview → phase r ≡ drafted r.template
phase-preview r e = rw e refl

pub claim-Moves :
    (id of job : Text) (rs : List WriteRequest)
    → Moves
        (phase_of (find (has_id id) rs))
        (phase_of (find (has_id id) (map (claimed_by of job) rs)))
claim-Moves id of job rs =
    rw (find-map (claimed_by of job) id rs keeps_id) (elim (Option-cases (find (has_id id) rs)) [
      | inl e ↦ rw e (inl refl)
      | inr (r, e) ↦ rw e (elim (claimed_cases of job r) [
        | inl (_, p, k) ↦ inr (rw (k, phase-preview r p) (submits r.template job))
        | inr k ↦ inl (ap phase k)
      ])
    ])
  where
    keeps_id : (r : WriteRequest) → (claimed_by of job r).id ≡ r.id
    keeps_id r = elim (claimed_cases of job r) [ inl (_, _, k) ↦ rw k refl | inr k ↦ rw k refl ]

-- A request that is not a draft is submitted; one that has started does not wait.
pub phase-submitted :
    (r : WriteRequest)
    → r.status ≢ preview
    → (p : Stage) × (phase r ≡ submitted r.template r.job_id p) × (r.status ≢ pending → p ≢ waiting)
phase-submitted r not_preview = by_status r.status refl
  where
    by_status :
        (x : WriteStatus)
        → r.status ≡ x
        → (p : Stage) × (phase r ≡ submitted r.template r.job_id p)
          × (r.status ≢ pending → p ≢ waiting)
    by_status preview e = absurd (not_preview e)
    by_status pending e = (waiting, rw e refl, (λ n k. n e))
    by_status running e = (underway, rw e refl, (λ n k. cc))
    by_status completed e = (ended done, rw e refl, (λ n k. cc))
    by_status failed e = (ended broken, rw e refl, (λ n k. cc))
    by_status blocked e = (ended refused, rw e refl, (λ n k. cc))
    by_status needs_attention e = (ended doubtful, rw e refl, (λ n k. cc))

turned :
    (r q : WriteRequest) (job : Text) (p z : Stage)
    → phase r ≡ submitted r.template r.job_id p
    → r.job_id ≡ some job
    → phase q ≡ submitted r.template r.job_id z
    → Turn p z
    → Moves (phase r) (phase q)
turned r q job p z e i f t = inr (rw (e, f, i) (turns r.template job p z t))

pub started-Moves :
    (r : WriteRequest) (job : Text) (x : Sets.Status) (code : Option Text)
    → r.status ≢ preview
    → r.job_id ≡ some job
    → Moves (phase r) (phase (request_started x code r))
started-Moves r job x code n i = let (p, e, _) = phase-submitted r n in by_status x p e
  where
    by_status :
        (x : Sets.Status) (p : Stage)
        → phase r ≡ submitted r.template r.job_id p
        → Moves (phase r) (phase (request_started x code r))
    by_status Sets.queued p e = inl refl
    by_status Sets.blocked p e =
        turned r (request_started Sets.blocked code r) job p (ended refused) e i refl (refuses p)
    by_status Sets.completed p e =
        turned r (request_started Sets.completed code r) job p underway e i refl (starts p)
    by_status Sets.failed p e =
        turned r (request_started Sets.failed code r) job p underway e i refl (starts p)
    by_status Sets.needs_attention p e =
        turned r (request_started Sets.needs_attention code r) job p underway e i refl (starts p)

pub concluded-Moves :
    (r : WriteRequest) (job : Text) (x : Sets.Status) (code : Option Text)
    → r.status ≢ preview
    → r.status ≢ pending
    → r.job_id ≡ some job
    → Moves (phase r) (phase (request_concluded x code r))
concluded-Moves r job x code n late i =
    let (p, e, w) = phase-submitted r n in by_status x p e (w late)
  where
    by_status :
        (x : Sets.Status) (p : Stage)
        → phase r ≡ submitted r.template r.job_id p
        → p ≢ waiting
        → Moves (phase r) (phase (request_concluded x code r))
    by_status Sets.queued p e w = inl refl
    by_status Sets.blocked p e w = inl refl
    by_status Sets.completed p e w =
        turned r (request_concluded Sets.completed code r) job p (ended done) e i refl
          (ends p done w)
    by_status Sets.failed p e w =
        turned r (request_concluded Sets.failed code r) job p (ended broken) e i refl
          (ends p broken w)
    by_status Sets.needs_attention p e w =
        turned r (request_concluded Sets.needs_attention code r) job p (ended doubtful) e i refl
          (ends p doubtful w)

-- One row is changed, and the others are seen as before.
pub at-Moves :
    (id of : Text) (f : WriteRequest → WriteRequest) (rs : List WriteRequest)
    → ((r : WriteRequest) → (at of f r).id ≡ r.id)
    → ((q : WriteRequest) → Elem q rs → q.id ≡ of → Moves (phase q) (phase (f q)))
    → Moves (phase_of (find (has_id id) rs)) (phase_of (find (has_id id) (map (at of f) rs)))
at-Moves id of f rs keeps moves =
    rw (find-map (at of f) id rs keeps) (elim (Option-cases (find (has_id id) rs)) [
      | inl e ↦ rw e (inl refl)
      | inr (q, e) ↦ rw e (elim (Bool-cases (has_id of q)) [
        | inl k ↦ rw k (moves q (Elem-of_find (has_id id) q rs e).0 ((same_iff q.id of).0 k))
        | inr k ↦ rw k (inl refl)
      ])
    ])
