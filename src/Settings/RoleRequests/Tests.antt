-- ===== src/Settings/RoleRequests/Tests.antt =====
-- A user asks for one role twice over, and two administrators decide at once.
use management_app.Base.{◌≡◌, refl, none, some, [], ◌∷◌, All, Elem, ok}
use management_app.Collections.Texts.{unique}
use management_app.Settings.RoleRequests.{
  Request, pending, processing, approved, rejected, approve, submit, claim, update_where, finalize,
}
use management_app.Settings.RoleRequests.Steps.{
  Grant, State, grant_of, submits, granting, finishing, claims, grants, finishes, Steps, none_yet,
  then_step, empty,
}
use management_app.Settings.RoleRequests.Rows.{AsksAllowed, Claimed, IsGranted, AllAlone}
use management_app.Settings.RoleRequests.Sound.{reachable-IsSound}
use management_app.Settings.RoleRequests.Race.{rejection_with_grant}

abbrev request : Request
request = record {
  id = "r1";
  user_id = "u1";
  roles = "AUDITOR" ∷ [];
  status = pending;
  reviewer_id = none;
  processing_at = none;
  decided_at = none;
}

asked : submit ("READ_ONLY" ∷ []) "u1" "r1" ("AUDITOR" ∷ "AUDITOR" ∷ []) [] ≡ ok (request ∷ [])
unfolding submit unique
asked = refl

abbrev waiting : State
waiting = record empty { requests = request ∷ [] }

abbrev taken : Request
taken = record request { status = processing; reviewer_id = some "anna"; processing_at = some 3 }

abbrev done : Request
done = record taken { status = approved; decided_at = some 4 }

taking : claim approve "r1" "anna" 3 (request ∷ []) ≡ ok (taken ∷ [], taken)
unfolding claim update_where
taking = refl

finishing_it : finalize approved "r1" "anna" 4 (taken ∷ []) ≡ ok (done ∷ [])
unfolding finalize update_where
finishing_it = refl

abbrev claimed_state : State
claimed_state = record { requests = taken ∷ []; granted = []; running = granting "anna" taken ∷ [] }

abbrev granted_state : State
granted_state = record {
  requests = taken ∷ [];
  granted = grant_of taken ∷ [];
  running = finishing "anna" approved "r1" ∷ [];
}

abbrev final : State
final = record { requests = done ∷ []; granted = grant_of taken ∷ []; running = [] }

run : Steps empty final
run =
    then_step
      (then_step
        (then_step
          (then_step none_yet (
            submits empty ("READ_ONLY" ∷ []) "u1" "r1" ("AUDITOR" ∷ "AUDITOR" ∷ []) (request ∷ [])
              asked))
          (claims waiting approve "r1" "anna" 3 (taken ∷ []) taken taking))
        (grants claimed_state [] [] "anna" taken refl))
      (finishes granted_state [] [] "anna" "r1" approved 4 (done ∷ []) refl finishing_it)

reachable-IsSound_example :
    All (λ (g : Grant). AsksAllowed g.roles × Claimed final.requests g) final.granted
    × All (λ (r : Request). r.status ≡ approved → IsGranted final.granted r.id) final.requests
    × AllAlone final.requests
reachable-IsSound_example = reachable-IsSound run

rejection_with_grant_example :
    (t : State) × Steps waiting t
    × Elem (grant_of request) t.granted
    × (q : Request) × Elem q t.requests
    × (q.id ≡ "r1")
    × (q.status ≡ rejected)
rejection_with_grant_example = rejection_with_grant waiting "anna" "bruno" request refl refl
