-- ===== src/Snmp/Service/Writes/Claims.antt =====
-- A claim, and what is put in the queue, keep the tables of the writes sound.
use management_app.Base.{
  ◌≡◌, ◌≢◌, refl, sym, ◌∙◌, ap, ◌⊎◌, inl, inr, arith, Bool, true, false, none, some, List, [], ◌∷◌,
  ◌++◌, map, Elem, Elem-append_left, Elem-append_right, Elem-of_map, Bool-cases,
}
use management_app.Text.{Text}
use management_app.Text.Sets.{same_iff}
use management_app.Snmp.Service.Jobs
use management_app.Snmp.Service.Writes.{
  WriteStatus, preview, pending, running, completed, failed, blocked, needs_attention, WriteRequest,
  SetJob, Tables, is_preview, is_claimable, claimed_by, enqueued,
}
use management_app.Snmp.Service.Writes.Kept.{IsSound, IsNewJob}

pub claimed_cases :
    (id job : Text) (r : WriteRequest)
    → ((r.id ≡ id)
        × (r.status ≡ preview)
        × (claimed_by id job r ≡ record r { status = pending; job_id = some job }))
      ⊎ (claimed_by id job r ≡ r)
claimed_cases id job r = elim (Bool-cases (is_claimable id r)) [
  | inl h ↦
      inl ((same_iff r.id id).0 (ground arith), is_preview-lem r.status (ground arith), rw h refl)
  | inr h ↦ inr (rw h refl)
]
  where
    is_preview-lem : (x : WriteStatus) → is_preview x ≡ true → x ≡ preview
    is_preview-lem preview h = refl
    is_preview-lem pending h = absurd (cc)
    is_preview-lem running h = absurd (cc)
    is_preview-lem completed h = absurd (cc)
    is_preview-lem failed h = absurd (cc)
    is_preview-lem blocked h = absurd (cc)
    is_preview-lem needs_attention h = absurd (cc)

-- A row after a claim, from a row before it.
pub from_claim :
    (id job : Text) (r : WriteRequest) (rs : List WriteRequest)
    → Elem r (map (claimed_by id job) rs)
    → (q : WriteRequest) × Elem q rs
      × (r ≡ claimed_by id job q)
      × (r.id ≡ q.id)
      × (r.template ≡ q.template)
      × (((q.id ≡ id) × (r.status ≡ pending) × (r.job_id ≡ some job)) ⊎ (r ≡ q))
from_claim id job r rs m =
    let (q, n, e) = Elem-of_map (claimed_by id job) r rs m in
    elim (claimed_cases id job q) [
      | inl (i, p, k) ↦
          let w = e ∙ k in
          (
            q,
            n,
            e,
            ap (λ (x : WriteRequest). x.id) w,
            ap (λ (x : WriteRequest). x.template) w,
            inl (i, ap (λ (x : WriteRequest). x.status) w, ap (λ (x : WriteRequest). x.job_id) w),
          )
      | inr k ↦
          let w = e ∙ k in
          (
            q,
            n,
            e,
            ap (λ (x : WriteRequest). x.id) w,
            ap (λ (x : WriteRequest). x.template) w,
            inr w,
          )
    ]

abbrev pub new_job : Text → Text → WriteRequest → Text → SetJob
new_job job user request credential = record {
  id = job;
  device_id = request.device_id;
  credential_id = credential;
  requested_by = user;
  status = Jobs.pending;
  error_code = none;
}

abbrev pub claimed_tables : Text → Text → WriteRequest → Text → Tables → Tables
claimed_tables job user request credential s = record s {
  requests = map (claimed_by request.id job) s.requests;
  jobs = s.jobs ++ new_job job user request credential ∷ [];
}

-- What is in the queue matters to nothing.
pub queue-kept : (queue : List Text) (s : Tables) → IsSound s → IsSound (record s { queue = queue })
queue-kept queue s u = record {
  one = u.one;
  single = u.single;
  unclaimed = u.unclaimed;
  has_job = u.has_job;
  valid = u.valid;
}

pub claim-kept :
    (job user : Text) (request : WriteRequest) (credential : Text) (s : Tables)
    → IsSound s
    → IsNewJob job s
    → IsSound (claimed_tables job user request credential s)
claim-kept job user request credential s u fresh = record {
  one = λ r q m n e.
      let (a, ma, fa, ia, _, _) = from_claim request.id job r s.requests m in
      let (b, mb, fb, ib, _, _) = from_claim request.id job q s.requests n in
      fa ∙ ap (claimed_by request.id job) (u.one a b ma mb (sym ia ∙ e ∙ ib)) ∙ sym fb;
  single = λ j r q m n e f.
      let (a, ma, fa, ia, _, ka) = from_claim request.id job r s.requests m in
      let (b, mb, fb, ib, _, kb) = from_claim request.id job q s.requests n in
      elim ka [
        | inl (i, _, p) ↦ elim kb [
          | inl (k, _, _) ↦
              fa ∙ ap (claimed_by request.id job) (u.one a b ma mb (i ∙ sym k)) ∙ sym fb
          | inr k ↦
              absurd (old_job b mb (ap (λ (x : WriteRequest). x.job_id) (sym k) ∙ f ∙ sym e ∙ p))
        ]
        | inr i ↦ elim kb [
          | inl (k, _, p) ↦
              absurd (old_job a ma (ap (λ (x : WriteRequest). x.job_id) (sym i) ∙ e ∙ sym f ∙ p))
          | inr k ↦
              rw (i, k)
                (u.single j a b ma mb (ap (λ (x : WriteRequest). x.job_id) (sym i) ∙ e)
                  (ap (λ (x : WriteRequest). x.job_id) (sym k) ∙ f))
        ]
      ];
  unclaimed = λ r m e.
      let (a, ma, _, _, _, ka) = from_claim request.id job r s.requests m in
      elim ka [
        | inl (_, p, _) ↦ absurd (preview_pending (sym e ∙ p))
        | inr k ↦ rw k (u.unclaimed a ma (ap (λ (x : WriteRequest). x.status) (sym k) ∙ e))
      ];
  has_job = λ j r m e.
      let (a, ma, _, _, _, ka) = from_claim request.id job r s.requests m in
      elim ka [
        | inl (_, _, p) ↦
            let new = new_job job user request credential in
            (new, Elem-append_right new s.jobs (new ∷ []) (inl refl), some-one job j (sym p ∙ e))
        | inr k ↦
            let (b, n, i) = u.has_job j a ma (ap (λ (x : WriteRequest). x.job_id) (sym k) ∙ e) in
            (b, Elem-append_left b s.jobs _ n, i)
      ];
  valid = λ r m.
      let (a, ma, _, _, t, _) = from_claim request.id job r s.requests m in rw t (u.valid a ma);
}
  where
    old_job : (a : WriteRequest) → Elem a s.requests → a.job_id ≢ some job
    old_job a m e = let (b, n, i) = u.has_job job a m e in fresh b n i

    preview_pending : preview ≢ pending
    preview_pending e = cc

    some-one : (a b : Text) → some a ≡ some b → a ≡ b
    some-one a b e = cc

pub enqueued-kept :
    (answers : Bool) (job : Text) (s : Tables) → IsSound s → IsSound (enqueued answers job s)
enqueued-kept false job s u = u
enqueued-kept true job s u = queue-kept (s.queue ++ job ∷ []) s u
