-- ===== src/Snmp/Service/Writes/Kept.antt =====
-- The tables of the writes: a job belongs to one request, and what is stored is valid.
use management_app.Base.{
  ◌≡◌, ◌≢◌, refl, sym, ◌∙◌, ap, inl, inr, arith, none, some, [], ◌∷◌, ◌++◌, Elem, Result,
  Result-cases, ok, bind-eq-ok, seq-eq-ok,
}
use mathlib.Core.Path.{subst}
use management_app.Text.{Text}
use management_app.Snmp.Contracts.{SetTemplate, validate_set_template}
use management_app.Snmp.Service.Secrets.{Fault}
use management_app.Snmp.Service.Exclusive.Rows.{pairs-snoc, Elem-snoc}
use management_app.Snmp.Service.Writes.{
  preview, WriteRequest, SetJob, Tables, PreviewDto, merged, valid_template, assert_interface,
  previewed, preview_write, stored_parameters,
}
use management_app.Snmp.Service.Writes.Stored.{validate-stored_parameters}

pub record IsSound (s : Tables) : Type 0 where
  pub one : (r q : WriteRequest) → Elem r s.requests → Elem q s.requests → r.id ≡ q.id → r ≡ q
  pub single :
      (j : Text) (r q : WriteRequest)
      → Elem r s.requests
      → Elem q s.requests
      → r.job_id ≡ some j
      → q.job_id ≡ some j
      → r ≡ q
  pub unclaimed : (r : WriteRequest) → Elem r s.requests → r.status ≡ preview → r.job_id ≡ none
  pub has_job :
      (j : Text) (r : WriteRequest)
      → Elem r s.requests
      → r.job_id ≡ some j
      → (b : SetJob) × Elem b s.jobs × (b.id ≡ j)
  pub valid :
      (r : WriteRequest)
      → Elem r s.requests
      → validate_set_template (some (stored_parameters r.template)) ≡ ok r.template

-- Ids of new jobs are new.
abbrev pub IsNewJob : Text → Tables → Type 0
IsNewJob j s = (b : SetJob) → Elem b s.jobs → b.id ≢ j

valid-lem :
    (dto : PreviewDto) (t : SetTemplate)
    → valid_template dto ≡ ok t
    → validate_set_template (some (merged dto)) ≡ ok t
valid-lem dto t h = elim (Result-cases (validate_set_template (some (merged dto)))) [
  | inl (x, e) ↦ ground arith
  | inr (f, e) ↦ absurd (ground arith)
]

previewed-kept :
    (id device user : Text) (dto : PreviewDto) (x : SetTemplate) (s : Tables)
    → IsSound s
    → ((r : WriteRequest) → Elem r s.requests → r.id ≢ id)
    → validate_set_template (some (stored_parameters x)) ≡ ok x
    → IsSound (record s { requests = s.requests ++ previewed id device user dto x ∷ [] })
previewed-kept id device user dto x s u fresh good = record {
  one =
      pairs-snoc (λ r q. r.id ≡ q.id → r ≡ q) new s.requests (λ e. refl)
        (λ d m e. absurd (fresh d m (sym e))) (λ d m e. absurd (fresh d m e)) u.one;
  single = λ j.
      pairs-snoc (λ r q. r.job_id ≡ some j → q.job_id ≡ some j → r ≡ q) new s.requests (λ e f. refl)
        (λ d m e. absurd (no_job j e)) (λ d m e f. absurd (no_job j f)) (u.single j);
  unclaimed = λ r m e. elim (Elem-snoc r new s.requests m) [
    | inl k ↦ rw k refl
    | inr k ↦ u.unclaimed r k e
  ];
  has_job = λ j r m e. elim (Elem-snoc r new s.requests m) [
    | inl k ↦ absurd (no_job j (ap (λ (y : WriteRequest). y.job_id) (sym k) ∙ e))
    | inr k ↦ u.has_job j r k e
  ];
  valid = λ r m. elim (Elem-snoc r new s.requests m) [ inl k ↦ rw k good | inr k ↦ u.valid r k ];
}
  where
    new : WriteRequest
    new = previewed id device user dto x

    no_job : (j : Text) → none ≢ some j
    no_job j e = cc

pub preview_write-kept :
    (permitted : Result Fault (Unit {0})) (id device user : Text) (dto : PreviewDto) (s t : Tables)
    → IsSound s
    → ((r : WriteRequest) → Elem r s.requests → r.id ≢ id)
    → preview_write permitted id device user dto s ≡ ok t
    → (x : SetTemplate) × (record s { requests = s.requests ++ previewed id device user dto x ∷ [] }
        ≡ t)
      × IsSound t
unfolding preview_write
preview_write-kept permitted id device user dto s t u fresh h =
    let (allowed, h1) = seq-eq-ok permitted _ h in
    let (x, good, h2) = bind-eq-ok (valid_template dto) _ h1 in
    let (inside, h3) = seq-eq-ok (assert_interface s.interfaces device x) _ h2 in
    let done : record s { requests = s.requests ++ previewed id device user dto x ∷ [] } ≡ t = cc in
    let stored = validate-stored_parameters (merged dto) x (valid-lem dto x good) in
    (x, done, subst IsSound done (previewed-kept id device user dto x s u fresh stored))
