-- ===== src/Settings/RoleRequests/Race.antt =====
-- An approval and a rejection of one request that overlap.
use management_app.Base.{
  ℕ, ◌≡◌, refl, inl, inr, arith, String, Bool, true, false, some, List, [], ◌∷◌, ◌++◌, find, ◌==◌,
  Elem, Elem-append_right, Elem-of_find, any-Elem, Bool-cases, if◌then◌else◌, ok,
}
use mathlib.Core.List.{append_assoc}
use management_app.Settings.RoleRequests.{
  Request, Status, pending, processing, approved, rejected, Decision, approve, reject, is_claimable,
  claimed, update_where, claim, is_closable, closed, finalize,
}
use management_app.Settings.RoleRequests.Steps.{
  granting, finishing, State, grant_of, Step, claims, grants, finishes, Steps, none_yet, then_step,
}

-- Changes leave the ids, so that the same row is found.
find-update_where :
    (id : String) (test : Request → Bool) (change : Request → Request)
    → ((r : Request) → (change r).id ≡ r.id)
    → (table : List Request) (r : Request) → find (λ (q : Request). q.id == id) table ≡ some r
    → find (λ (q : Request). q.id == id) (update_where test change table)
      ≡ some (if test r then change r else r)
unfolding update_where
find-update_where id test change ids [] r h = absurd (cc)
find-update_where id test change ids (q ∷ table) r h = elim (Bool-cases (test q)) [
  | inl hit ↦ rw hit (ground (arith, ids q, find-update_where id test change ids table r))
  | inr miss ↦ rw miss (ground (arith, find-update_where id test change ids table r))
]

module _ (id reviewer : String) (now : ℕ) (table : List Request) (r : Request)
    (found : find (λ (q : Request). q.id == id) table ≡ some r) where
  named : r.id == id ≡ true
  named = (Elem-of_find (λ (q : Request). q.id == id) r table found).1

  listed : Elem r table
  listed = (Elem-of_find (λ (q : Request). q.id == id) r table found).0

  claim_pending :
      (d : Decision)
      → r.status ≡ pending
      → claim d id reviewer now table
        ≡ ok (update_where (is_claimable id) (claimed reviewer now) table, claimed reviewer now r)
  unfolding claim
  claim_pending d p =
      let hit : is_claimable id r ≡ true = ground (arith, named) in
      let some_hit = any-Elem (is_claimable id) r table listed hit in
      let next =
        find-update_where id (is_claimable id) (claimed reviewer now) (λ q. refl) table r found in
      ground arith

  processing_by_claim :
      r.status ≡ processing
      → claim approve id reviewer now table
        ≡ ok (update_where (is_claimable id) (claimed reviewer now) table, r)
  unfolding claim
  processing_by_claim p =
      let miss : is_claimable id r ≡ false = ground arith in
      let next =
        find-update_where id (is_claimable id) (claimed reviewer now) (λ q. refl) table r found in
      ground arith

  processing_by_finalize :
      (status : Status)
      → r.status ≡ processing
      → finalize status id reviewer now table
        ≡ ok (update_where (is_closable id) (closed status reviewer now) table)
  unfolding finalize
  processing_by_finalize status p =
      let hit : is_closable id r ≡ true = ground (arith, named) in
      let some_hit = any-Elem (is_closable id) r table listed hit in ground arith

-- Where one administrator rejects a request and another approves it at the same time, the calls can
-- overlap so that the request ends rejected although its roles were granted: this holds for every
-- pending request, whatever else is running.
pub rejection_with_grant :
    (s : State) (rejecter approver : String) (r : Request)
    → find (λ (q : Request). q.id == r.id) s.requests ≡ some r
    → r.status ≡ pending
    → (t : State) × Steps s t
      × Elem (grant_of r) t.granted
      × (q : Request) × Elem q t.requests
      × (q.id ≡ r.id)
      × (q.status ≡ rejected)
rejection_with_grant s a b r found p =
    let r1 = claimed a 0 r in
    let hit : is_claimable r.id r ≡ true = ground (arith, named r.id a 0 s.requests r found) in
    let t1 = update_where (is_claimable r.id) (claimed a 0) s.requests in
    let e1 : find (λ (q : Request). q.id == r.id) t1 ≡ some r1 = ground (
      arith,
      find-update_where r.id (is_claimable r.id) (claimed a 0) (λ q. refl) s.requests r found,
    ) in
    let t2 = update_where (is_claimable r.id) (claimed b 0) t1 in
    let e2 : find (λ (q : Request). q.id == r.id) t2 ≡ some r1 =
      ground
        (arith, find-update_where r.id (is_claimable r.id) (claimed b 0) (λ q. refl) t1 r1 e1) in
    let r3 = closed rejected a 0 r1 in
    let t3 = update_where (is_closable r.id) (closed rejected a 0) t2 in
    let e3 : find (λ (q : Request). q.id == r.id) t3 ≡ some r3 = ground (
      arith,
      named r.id a 0 t2 r1 e2,
      find-update_where r.id (is_closable r.id) (closed rejected a 0) (λ q. refl) t2 r1 e2,
    ) in
    let s1 : State = record s {
      requests = t1;
      running = s.running ++ finishing a rejected r.id ∷ [];
    } in
    let s2 : State = record s1 { requests = t2; running = s1.running ++ granting b r1 ∷ [] } in
    let s3 : State = record s2 {
      granted = s.granted ++ grant_of r1 ∷ [];
      running = s1.running ++ finishing b approved r.id ∷ [];
    } in
    let s4 : State = record s3 {
      requests = t3;
      running = s.running ++ finishing b approved r.id ∷ [];
    } in
    let step1 : Step s s1 =
      claims s reject r.id a 0 t1 r1 (claim_pending r.id a 0 s.requests r found reject p) in
    let step2 : Step s1 s2 =
      claims s1 approve r.id b 0 t2 r1 (processing_by_claim r.id b 0 t1 r1 e1 refl) in
    let step3 : Step s2 s3 = grants s2 s1.running [] b r1 refl in
    let step4 : Step s3 s4 =
      finishes s3 s.running (finishing b approved r.id ∷ []) a r.id rejected 0 t3
        (append_assoc s.running (finishing a rejected r.id ∷ []) (finishing b approved r.id ∷ []))
        (processing_by_finalize r.id a 0 t2 r1 e2 rejected refl) in
    (
      s4,
      then_step (then_step (then_step (then_step none_yet step1) step2) step3) step4,
      Elem-append_right (grant_of r) s.granted (grant_of r ∷ []) (inl refl),
      r3,
      (Elem-of_find (λ (q : Request). q.id == r.id) r3 t3 e3).0,
      refl,
      refl,
    )
