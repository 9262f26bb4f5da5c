-- ===== src/Settings/RoleRequests.antt =====
-- role-request.service.ts: users ask for roles, an administrator decides. A decision is three steps,
-- between which other calls may run: the request is claimed, Keycloak is called, the request is closed.
pub mod Steps
pub mod Rows
pub mod Calls
pub mod Ends
pub mod Sound
pub mod Race
mod Tests
use management_app.Base.{
  ℕ, String, Bool, true, false, not, ◌&&◌, ◌||◌, Option, none, some, List, [], ◌∷◌, ◌++◌, map, any,
  find, is_empty, ◌==◌, if◌then◌else◌, Result, ok, err, ◌>>=◌, ◌>>◌, guard, or_throw,
}
use management_app.Base.HttpError.{HttpError, bad_request, not_found, conflict}
use management_app.Collections.Texts.{includes, unique}

-- `RoleRequestStatus`
pub data Status : Type 0 where
  pending processing approved rejected : Status

abbrev pub is_pending : Status → Bool
is_pending pending = true
is_pending _ = false

abbrev pub is_processing : Status → Bool
is_processing processing = true
is_processing _ = false

-- `status: { in: ['PENDING', 'PROCESSING'] }`
abbrev pub is_active : Status → Bool
is_active s = is_pending s || is_processing s

-- A row of `RoleRequest`.
pub record Request : Type 0 where
  pub id : String
  pub user_id : String
  pub roles : List String
  pub status : Status
  pub reviewer_id : Option String
  pub processing_at : Option ℕ
  pub decided_at : Option ℕ

-- `SELF_REQUEST_ROLES`
abbrev pub self_request_roles : List String
self_request_roles = "NETWORK_OPERATOR" ∷ "SYSTEMS_OPERATOR" ∷ "AUDITOR" ∷ []

abbrev pub is_invalid : List String → Bool
is_invalid roles = is_empty roles || any (λ r. not (includes r self_request_roles)) roles

abbrev pub is_open_of : String → Request → Bool
is_open_of user r = r.user_id == user && is_active r.status

-- `submit`. `effective` are the roles that Keycloak answers for the user. The test for an open request
-- and the unique index `RoleRequest_one_pending_per_user` of the database refuse the same.
unfoldable pub submit :
    List String → String → String → List String → List Request → Result HttpError (List Request)
submit effective user id input table = do
  guard (not (is_invalid (unique input))) (bad_request "ROLE_REQUEST_INVALID")
  guard (not (any (λ r. includes r effective) (unique input))) (conflict "ROLE_ALREADY_HELD")
  guard (not (any (is_open_of user) table)) (conflict "ROLE_REQUEST_PENDING")
  ok (
      table
      ++ record {
        id = id;
        user_id = user;
        roles = unique input;
        status = pending;
        reviewer_id = none;
        processing_at = none;
        decided_at = none;
      }
        ∷ [])

pub data Decision : Type 0 where
  approve reject : Decision

abbrev pub is_approve : Decision → Bool
is_approve approve = true
is_approve reject = false

abbrev pub is_claimable : String → Request → Bool
is_claimable id r = r.id == id && is_pending r.status

abbrev pub claimed : String → ℕ → Request → Request
claimed reviewer now r = record r {
  status = processing;
  reviewer_id = some reviewer;
  processing_at = some now;
}

-- `updateMany`: the rows that pass the test are changed.
unfoldable pub update_where : (Request → Bool) → (Request → Request) → List Request → List Request
update_where test change = map (λ r. if test r then change r else r)

-- The first two queries of `decide`: the request is claimed if it is pending; an approval that finds it
-- claimed already goes on as well.
unfoldable pub claim :
    Decision → String → String → ℕ → List Request → Result HttpError (List Request × Request)
claim decision id reviewer now table = do
  let next = update_where (is_claimable id) (claimed reviewer now) table
  request ← or_throw (find (λ (r : Request). r.id == id) next) (not_found "Pedido não encontrado.")
  guard (any (is_claimable id) table || is_approve decision && is_processing request.status)
      (conflict "ROLE_REQUEST_NOT_PENDING")
  ok (next, request)

abbrev pub is_closable : String → Request → Bool
is_closable id r = r.id == id && is_processing r.status

abbrev pub closed : Status → String → ℕ → Request → Request
closed status reviewer now r = record r {
  status = status;
  reviewer_id = some reviewer;
  decided_at = some now;
}

-- `finalize`, without its notification.
unfoldable pub finalize :
    Status → String → String → ℕ → List Request → Result HttpError (List Request)
finalize status id reviewer now table = do
  guard (any (is_closable id) table) (conflict "ROLE_REQUEST_NOT_PENDING")
  ok (update_where (is_closable id) (closed status reviewer now) table)
