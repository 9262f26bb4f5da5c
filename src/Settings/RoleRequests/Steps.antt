-- ===== src/Settings/RoleRequests/Steps.antt =====
-- Requests and decisions that run at the same time, as steps on what the database, Keycloak and the
-- running calls hold.
use management_app.Base.{ℕ, ◌≡◌, String, List, [], ◌∷◌, ◌++◌, ok}
use management_app.Settings.RoleRequests.{
  Request, Status, approved, rejected, Decision, approve, reject, submit, claim, finalize,
}

-- Roles that Keycloak was asked to grant, and for which request.
pub record Grant : Type 0 where
  pub user_id : String
  pub request_id : String
  pub roles : List String

-- Where a call of `decide` stands: before `grantRoles`, or before `finalize`.
pub data Task : Type 0 where
  granting : String → Request → Task
  finishing : String → Status → String → Task

abbrev pub task_of : String → Decision → Request → Task
task_of reviewer approve r = granting reviewer r
task_of reviewer reject r = finishing reviewer rejected r.id

pub record State : Type 0 where
  pub requests : List Request
  pub granted : List Grant
  pub running : List Task

abbrev pub grant_of : Request → Grant
grant_of r = record { user_id = r.user_id; request_id = r.id; roles = r.roles }

pub data Step : State → State → Type 0 where
  submits :
      (s : State) (effective : List String) (user id : String) (input : List String)
      (next : List Request)
      → submit effective user id input s.requests ≡ ok next
      → Step s (record s { requests = next })
  claims :
      (s : State) (d : Decision) (id reviewer : String) (now : ℕ) (next : List Request)
      (r : Request)
      → claim d id reviewer now s.requests ≡ ok (next, r)
      → Step s (record s { requests = next; running = s.running ++ task_of reviewer d r ∷ [] })
  -- Keycloak grants the roles of the request.
  grants :
      (s : State) (before after : List Task) (reviewer : String) (r : Request)
      → s.running ≡ before ++ granting reviewer r ∷ after
      → Step s (record s {
        granted = s.granted ++ grant_of r ∷ [];
        running = before ++ finishing reviewer approved r.id ∷ after;
      })
  -- A call fails: Keycloak or the database does not answer.
  fails :
      (s : State) (before after : List Task) (t : Task)
      → s.running ≡ before ++ t ∷ after
      → Step s (record s { running = before ++ after })
  finishes :
      (s : State) (before after : List Task) (reviewer id : String) (status : Status) (now : ℕ)
      (next : List Request)
      → s.running ≡ before ++ finishing reviewer status id ∷ after
      → finalize status id reviewer now s.requests ≡ ok next
      → Step s (record s { requests = next; running = before ++ after })

pub data Steps (s : State) : State → Type 0 where
  none_yet : Steps s s
  then_step : {t u : State} → Steps s t → Step t u → Steps s u

abbrev pub empty : State
empty = record { requests = []; granted = []; running = [] }
