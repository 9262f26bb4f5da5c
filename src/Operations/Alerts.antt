-- ===== src/Operations/Alerts.antt =====
-- The alert table of operations.service.ts and every write to it. `now` is the time of the call and
-- `id` the id that the database makes; times are numbers. What is published and the read marks of
-- the users are left out.
pub mod States
pub mod Keys
use management_app.Base.{
  ℕ, ◌+◌, String, Bool, true, false, not, ◌&&◌, ◌||◌, Option, none, some, List, [], ◌∷◌, ◌++◌, map,
  ◌==◌, any, find, leb, if◌then◌else◌, Result, ok, err, ◌>>=◌, ◌>>◌, guard, or_throw,
}
use management_app.Base.HttpError.{HttpError, not_found, forbidden, bad_request}
use management_app.Access.{User, admin, has_role}
use management_app.Collections.Texts.{includes}

pub data Severity : Type 0 where
  critical high warning info : Severity

pub data Status : Type 0 where
  opened acknowledged snoozed resolved : Status

-- A field that an update may leave out (`undefined`) or set to a value or to `null`.
abbrev pub Field : Type 0
Field = Option (Option String)

abbrev pub set_field : Field → Option String → Option String
set_field none old = old
set_field (some new) old = new

-- `UpsertOperationalAlert`
pub record Input : Type 0 where
  pub dedup_key : String
  pub source : String
  pub severity : Severity
  pub site_id : Field
  pub entity_type : Field
  pub entity_id : Field
  pub title : String
  pub detail : String
  pub action_href : Field

-- A row of `OperationalAlert`.
pub record Alert : Type 0 where
  pub id : String
  pub dedup_key : String
  pub source : String
  pub severity : Severity
  pub site_id : Option String
  pub entity_type : Option String
  pub entity_id : Option String
  pub title : String
  pub detail : String
  pub action_href : Option String
  pub status : Status
  pub occurrence_count : ℕ
  pub first_occurred_at : ℕ
  pub last_occurred_at : ℕ
  pub acknowledged_at : Option ℕ
  pub acknowledged_by_id : Option String
  pub snoozed_until : Option ℕ
  pub snooze_reason : Option String
  pub resolved_at : Option ℕ
  pub resolved_by_id : Option String
  pub resolution_reason : Option String

abbrev pub is_resolved : Status → Bool
is_resolved resolved = true
is_resolved _ = false

abbrev pub is_snoozed : Status → Bool
is_snoozed snoozed = true
is_snoozed _ = false

-- `update` and `updateMany`: the rows that pass the test are changed.
unfoldable pub update_where : (Alert → Bool) → (Alert → Alert) → List Alert → List Alert
update_where test change = map (λ a. if test a then change a else a)

abbrev pub created : String → ℕ → Input → Alert
created id now input = record {
  id = id;
  dedup_key = input.dedup_key;
  source = input.source;
  severity = input.severity;
  site_id = set_field input.site_id none;
  entity_type = set_field input.entity_type none;
  entity_id = set_field input.entity_id none;
  title = input.title;
  detail = input.detail;
  action_href = set_field input.action_href none;
  status = opened;
  occurrence_count = 1;
  first_occurred_at = now;
  last_occurred_at = now;
  acknowledged_at = none;
  acknowledged_by_id = none;
  snoozed_until = none;
  snooze_reason = none;
  resolved_at = none;
  resolved_by_id = none;
  resolution_reason = none;
}

-- What `upsert` sets when the alert was resolved before.
abbrev pub reopened : Alert → Alert
reopened a = record a {
  status = opened;
  acknowledged_at = none;
  acknowledged_by_id = none;
  snoozed_until = none;
  snooze_reason = none;
  resolved_at = none;
  resolved_by_id = none;
  resolution_reason = none;
}

abbrev pub recurred : ℕ → Input → Alert → Alert
recurred now input a =
    let next = record a {
      source = input.source;
      severity = input.severity;
      site_id = set_field input.site_id a.site_id;
      entity_type = set_field input.entity_type a.entity_type;
      entity_id = set_field input.entity_id a.entity_id;
      title = input.title;
      detail = input.detail;
      action_href = set_field input.action_href a.action_href;
      occurrence_count = a.occurrence_count + 1;
      last_occurred_at = now;
    } in
    if is_resolved a.status then reopened next else next

abbrev pub has_key : String → Alert → Bool
has_key key a = a.dedup_key == key

unfoldable pub upsert : String → ℕ → Input → List Alert → List Alert
upsert id now input table =
    if any (has_key input.dedup_key) table
    then update_where (has_key input.dedup_key) (recurred now input) table
    else table ++ created id now input ∷ []

-- The update of an alert that is active and still reported.
abbrev pub refreshed : ℕ → Input → Alert → Alert
refreshed now input a = record a {
  severity = input.severity;
  title = input.title;
  detail = input.detail;
  action_href = set_field input.action_href a.action_href;
  last_occurred_at = now;
}

abbrev pub has_id : String → Alert → Bool
has_id id a = a.id == id

-- One turn of the loop of `reconcileSource`; `id` is the id that a new row would get.
unfoldable pub reconcile_one : ℕ → String → Input → List Alert → List Alert
reconcile_one now id c table = elim (find (has_key c.dedup_key) table) [
  | none ↦ upsert id now c table
  | some existing ↦
      if is_resolved existing.status
      then upsert id now c table
      else update_where (has_id existing.id) (refreshed now c) table
]

unfoldable pub reconcile_all : ℕ → List (String × Input) → List Alert → List Alert
reconcile_all now [] table = table
reconcile_all now ((id, c) ∷ cs) table = reconcile_all now cs (reconcile_one now id c table)

abbrev pub in_site_scope : Option String → Alert → Bool
in_site_scope none a = true
in_site_scope (some s) a = s == "" || elim a.site_id [ none ↦ false | some t ↦ t == s ]

abbrev pub auto_resolved : ℕ → Alert → Alert
auto_resolved now a = record a {
  status = resolved;
  resolved_at = some now;
  resolution_reason = some "Resolvido automaticamente pela reconciliação.";
}

-- The alerts of the source that are active and no longer reported.
abbrev pub is_stale : String → Option String → List String → Alert → Bool
is_stale source scope active a =
    a.source == source
    && not (is_resolved a.status)
    && in_site_scope scope a
    && not (includes a.dedup_key active)

unfoldable pub reconcile_source :
    String → ℕ → List (String × Input) → Option String → Bool → List Alert → List Alert
reconcile_source source now candidates scope resolve_missing table =
    let kept = reconcile_all now candidates table in
    if resolve_missing
    then update_where (is_stale source scope (map (λ c. (c.1).dedup_key) candidates))
        (auto_resolved now) kept
    else kept

abbrev pub is_expired : ℕ → Alert → Bool
is_expired now a = is_snoozed a.status && elim a.snoozed_until [ none ↦ false | some t ↦ leb t now ]

unfoldable pub reopen_expired_snoozes : ℕ → List Alert → List Alert
reopen_expired_snoozes now = update_where (is_expired now) (λ a. record a {
  status = opened;
  snoozed_until = none;
  snooze_reason = none;
  acknowledged_at = none;
  acknowledged_by_id = none;
})

-- What `mutable` asks of the access services: `canSeeAlert` and `canOperateSite`.
pub record AlertAccess : Type 0 where
  pub can_see_alert : User → Alert → Bool
  pub can_operate_site : User → String → Bool

abbrev pub has_site : Alert → Bool
has_site a = elim a.site_id [ none ↦ false | some s ↦ not (s == "") ]

abbrev pub may_operate : AlertAccess → User → Alert → Bool
may_operate access user a = elim a.site_id [
  | none ↦ has_role user admin
  | some s ↦ if s == "" then has_role user admin else access.can_operate_site user s
]

abbrev pub operate_error : Alert → HttpError
operate_error a =
    if has_site a
    then forbidden "Não tens permissão operacional neste Site"
    else forbidden "Apenas ADMIN pode alterar alertas globais"

unfoldable pub mutable : AlertAccess → User → String → List Alert → Result HttpError Alert
mutable access user id table = do
  a ← or_throw (find (λ (a : Alert). a.id == id) table) (not_found "Alerta não encontrado")
  guard (access.can_see_alert user a) (not_found "Alerta não encontrado")
  guard (may_operate access user a) (operate_error a)
  ok a

unfoldable pub acknowledge :
    AlertAccess → User → String → ℕ → List Alert → Result HttpError (List Alert)
acknowledge access user id now table = do
  current ← mutable access user id table
  ok (
      update_where (has_id id)
        (λ a. record a {
          status = acknowledged;
          acknowledged_at = some now;
          acknowledged_by_id = some user.id;
          snoozed_until = none;
        })
        table)

-- A reason that is not given leaves the old one.
abbrev pub set_reason : Option String → Option String → Option String
set_reason none old = old
set_reason (some r) old = some r

unfoldable pub snooze :
    AlertAccess → User → String → ℕ → Option String → ℕ → List Alert → Result HttpError (List Alert)
snooze access user id until reason now table = do
  current ← mutable access user id table
  guard (not (leb until now)) (bad_request "A data de snooze tem de ser futura")
  ok (
      update_where (has_id id)
        (λ a. record a {
          status = snoozed;
          snoozed_until = some until;
          snooze_reason = set_reason reason a.snooze_reason;
        })
        table)

unfoldable pub resolve :
    AlertAccess → User → String → Option String → ℕ → List Alert → Result HttpError (List Alert)
resolve access user id reason now table = do
  current ← mutable access user id table
  ok (
      update_where (has_id id)
        (λ a. record a {
          status = resolved;
          resolved_at = some now;
          resolved_by_id = some user.id;
          resolution_reason = set_reason reason a.resolution_reason;
          snoozed_until = none;
        })
        table)
