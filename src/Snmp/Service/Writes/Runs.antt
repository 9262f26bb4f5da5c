-- ===== src/Snmp/Service/Writes/Runs.antt =====
-- A run changes the row of its request and its job, and keeps the tables of the writes sound.
use management_app.Base.{
  ◌≡◌, ◌≢◌, refl, sym, ◌∙◌, ap, ◌⊎◌, inl, inr, true, false, Option, none, some, List, map, find,
  Elem, Elem-of_map, Elem-map, Elem-of_find, Bool-cases,
}
use management_app.Text.{Text}
use management_app.Text.Sets.{same, same_iff}
use management_app.Snmp.Sets
use management_app.Snmp.Service.Writes.{
  WriteStatus, preview, pending, WriteRequest, SetJob, Tables, has_id, is_of_job, request_started,
  job_started, request_concluded, job_concluded, at, at_job,
}
use management_app.Snmp.Service.Writes.Kept.{IsSound}

-- A request that has started.
abbrev pub IsLate : WriteStatus → Type 0
IsLate x = (x ≢ preview) × (x ≢ pending)

-- What a run does to a row leaves all but its status and its error, or leaves it whole.
pub record IsTurn (f : WriteRequest → WriteRequest) : Type 0 where
  pub id : (r : WriteRequest) → (f r).id ≡ r.id
  pub template : (r : WriteRequest) → (f r).template ≡ r.template
  pub job : (r : WriteRequest) → (f r).job_id ≡ r.job_id
  pub late : (r : WriteRequest) → (f r ≡ r) ⊎ IsLate (f r).status

pub started-IsTurn : (x : Sets.Status) (code : Option Text) → IsTurn (request_started x code)
started-IsTurn Sets.queued code = record {
  id = λ r. refl;
  template = λ r. refl;
  job = λ r. refl;
  late = λ r. inl refl;
}
started-IsTurn Sets.blocked code = record {
  id = λ r. refl;
  template = λ r. refl;
  job = λ r. refl;
  late = λ r. inr ((λ e. cc), (λ e. cc));
}
started-IsTurn Sets.completed code = record {
  id = λ r. refl;
  template = λ r. refl;
  job = λ r. refl;
  late = λ r. inr ((λ e. cc), (λ e. cc));
}
started-IsTurn Sets.failed code = record {
  id = λ r. refl;
  template = λ r. refl;
  job = λ r. refl;
  late = λ r. inr ((λ e. cc), (λ e. cc));
}
started-IsTurn Sets.needs_attention code = record {
  id = λ r. refl;
  template = λ r. refl;
  job = λ r. refl;
  late = λ r. inr ((λ e. cc), (λ e. cc));
}

pub concluded-IsTurn : (x : Sets.Status) (code : Option Text) → IsTurn (request_concluded x code)
concluded-IsTurn Sets.queued code = record {
  id = λ r. refl;
  template = λ r. refl;
  job = λ r. refl;
  late = λ r. inl refl;
}
concluded-IsTurn Sets.blocked code = record {
  id = λ r. refl;
  template = λ r. refl;
  job = λ r. refl;
  late = λ r. inl refl;
}
concluded-IsTurn Sets.completed code = record {
  id = λ r. refl;
  template = λ r. refl;
  job = λ r. refl;
  late = λ r. inr ((λ e. cc), (λ e. cc));
}
concluded-IsTurn Sets.failed code = record {
  id = λ r. refl;
  template = λ r. refl;
  job = λ r. refl;
  late = λ r. inr ((λ e. cc), (λ e. cc));
}
concluded-IsTurn Sets.needs_attention code = record {
  id = λ r. refl;
  template = λ r. refl;
  job = λ r. refl;
  late = λ r. inr ((λ e. cc), (λ e. cc));
}

pub started-id :
    (x : Sets.Status) (code : Option Text) (b : SetJob) → (job_started x code b).id ≡ b.id
started-id Sets.queued code b = refl
started-id Sets.blocked code b = refl
started-id Sets.completed code b = refl
started-id Sets.failed code b = refl
started-id Sets.needs_attention code b = refl

pub concluded-id :
    (x : Sets.Status) (code : Option Text) (b : SetJob) → (job_concluded x code b).id ≡ b.id
concluded-id Sets.queued code b = refl
concluded-id Sets.blocked code b = refl
concluded-id Sets.completed code b = refl
concluded-id Sets.failed code b = refl
concluded-id Sets.needs_attention code b = refl

-- Of the rows, only that of the request is changed.
pub at-IsTurn : (id : Text) (f : WriteRequest → WriteRequest) → IsTurn f → IsTurn (at id f)
at-IsTurn id f t = record {
  id = λ r. elim (Bool-cases (has_id id r)) [ inl k ↦ rw k (t.id r) | inr k ↦ rw k refl ];
  template =
      λ r. elim (Bool-cases (has_id id r)) [ inl k ↦ rw k (t.template r) | inr k ↦ rw k refl ];
  job = λ r. elim (Bool-cases (has_id id r)) [ inl k ↦ rw k (t.job r) | inr k ↦ rw k refl ];
  late = λ r. elim (Bool-cases (has_id id r)) [ inl k ↦ rw k (t.late r) | inr k ↦ rw k (inl refl) ];
}

pub turn-kept :
    (f : WriteRequest → WriteRequest) (g : SetJob → SetJob) (job : Text) (queue : List Text)
    (s : Tables)
    → IsTurn f
    → ((b : SetJob) → (g b).id ≡ b.id)
    → IsSound s
    → IsSound
        (record s { queue = queue; requests = map f s.requests; jobs = map (at_job job g) s.jobs })
turn-kept f g job queue s t ids u = record {
  one = λ r q m n e.
      let (a, ma, ea) = Elem-of_map f r s.requests m in
      let (b, mb, eb) = Elem-of_map f q s.requests n in
      let same_id =
        sym (t.id a)
        ∙ ap (λ (x : WriteRequest). x.id) (sym ea)
        ∙ e
        ∙ ap (λ (x : WriteRequest). x.id) eb
        ∙ t.id b in
      ea ∙ ap f (u.one a b ma mb same_id) ∙ sym eb;
  single = λ j r q m n e k.
      let (a, ma, ea) = Elem-of_map f r s.requests m in
      let (b, mb, eb) = Elem-of_map f q s.requests n in
      let of_a = sym (t.job a) ∙ ap (λ (x : WriteRequest). x.job_id) (sym ea) ∙ e in
      let of_b = sym (t.job b) ∙ ap (λ (x : WriteRequest). x.job_id) (sym eb) ∙ k in
      ea ∙ ap f (u.single j a b ma mb of_a of_b) ∙ sym eb;
  unclaimed = λ r m e.
      let (a, ma, ea) = Elem-of_map f r s.requests m in
      ap (λ (x : WriteRequest). x.job_id) ea ∙ t.job a ∙ elim (t.late a) [
        | inl k ↦ u.unclaimed a ma (ap (λ (x : WriteRequest). x.status) (sym k ∙ sym ea) ∙ e)
        | inr (not_preview, _) ↦
            absurd (not_preview (ap (λ (x : WriteRequest). x.status) (sym ea) ∙ e))
      ];
  has_job = λ j r m e.
      let (a, ma, ea) = Elem-of_map f r s.requests m in
      let (b, n, i) =
        u.has_job j a ma (sym (t.job a) ∙ ap (λ (x : WriteRequest). x.job_id) (sym ea) ∙ e) in
      (at_job job g b, Elem-map (at_job job g) b s.jobs n, keeps_id b ∙ i);
  valid = λ r m.
      let (a, ma, ea) = Elem-of_map f r s.requests m in
      rw (ap (λ (x : WriteRequest). x.template) ea ∙ t.template a) (u.valid a ma);
}
  where
    keeps_id : (b : SetJob) → (at_job job g b).id ≡ b.id
    keeps_id b = elim (Bool-cases (same b.id job)) [ inl h ↦ rw h (ids b) | inr h ↦ rw h refl ]

pub found-of_job :
    (job : Text) (s : Tables) (r : WriteRequest)
    → find (is_of_job job) s.requests ≡ some r
    → Elem r s.requests × (r.job_id ≡ some job)
found-of_job job s r e =
    let (m, k) = Elem-of_find (is_of_job job) r s.requests e in (m, is_of_job-lem r.job_id k)
  where
    is_of_job-lem :
        (o : Option Text) → (elim o [ none ↦ false | some j ↦ same j job ]) ≡ true → o ≡ some job
    is_of_job-lem none h = absurd (cc)
    is_of_job-lem (some j) h = ap some ((same_iff j job).0 h)
