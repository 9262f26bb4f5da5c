-- ===== src/Snmp/Sets.antt =====
-- `SetProcessor.run` of set.ts: a write to a device, from the stored request to its outcome.
pub mod Laws
mod Tests
use management_app.Base.{
  ℕ, Bool, true, false, not, ◌&&◌, ◌||◌, Option, none, some, List, [], ◌∷◌, ◌++◌, all, is_empty,
  if◌then◌else◌, Result, ok, err,
}
use management_app.Text.{Text, codes}
use management_app.Text.Sets.{same}
use management_app.Snmp.Contracts.{
  Failure, coded, Parameters, SetTemplate, interface_admin_status, system_identity,
  validate_set_template, SetVarbind, set_varbinds, sys_name_oid, sys_location_oid, admin_status_oid,
  public_error_code,
}

-- The texts of the values that the device answers, by OID.
abbrev pub Values : Type 0
Values = List (Text × Text)

-- The newest observation of the interface: the text of its index (`none` for 0) and its name.
pub record Observation : Type 0 where
  pub index : Option Text
  pub name : Option Text

-- What the calls of a run answer or throw, in their order: the session, the query of the observation,
-- the name that the device gives the interface, the values before, the write, and the values after.
pub record Device : Type 0 where
  pub session : Result Failure (Unit {0})
  pub observation : Option Observation
  pub identity : Result Failure Text
  pub before : Result Failure Values
  pub write : Result Failure (Unit {0})
  pub after : Result Failure Values

pub data Status : Type 0 where
  queued completed failed blocked needs_attention : Status

-- The job, the write request and what was sent to the device.
pub record Outcome : Type 0 where
  pub job : Status
  pub job_error : Option Text
  pub request : Status
  pub request_error : Option Text
  pub before_values : Option Values
  pub verified_values : Option Values
  pub credential_used : Bool
  pub sent : List SetVarbind

-- What a run finds: the setting, the rows and whether the lock of the device is free.
pub record Job : Type 0 where
  pub is_valid : Bool
  pub set_enabled : Bool
  pub config_enabled : Bool
  pub is_write_credential : Bool
  pub lock_is_free : Bool
  pub parameters : Option Parameters

-- What the `try` block has done when it ends, by a value or an error.
pub record Attempt : Type 0 where
  pub result : Result Failure Values
  pub before : Option Values
  pub sent : List SetVarbind

abbrev pub gave_up : Failure → Attempt
gave_up e = record { result = err e; before = none; sent = [] }

abbrev pub same_identity : Option Text → Text → Bool
same_identity none name = true
same_identity (some t) name = is_empty t || same name t

-- The index of the interface, if one is to be written.
unfoldable pub index_of : Device → SetTemplate → Result Failure (Option Text)
index_of d (system_identity name location) = ok none
index_of d (interface_admin_status id up) = elim d.observation [
  | none ↦ err (coded (codes "SNMP_INTERFACE_INDEX_UNAVAILABLE"))
  | some o ↦ elim d.identity [
    | err e ↦ err e
    | ok name ↦
        if same_identity o.name name
        then ok o.index
        else err (coded (codes "SNMP_INTERFACE_IDENTITY_CHANGED"))
  ]
]

abbrev pub has_oid : Text → Values → Bool
has_oid oid [] = false
has_oid oid ((k, x) ∷ vs) = same k oid || has_oid oid vs

-- `verified[oid]`, the last of that OID; `String(undefined)` where there is none.
unfoldable pub value_of : Text → Values → Text
value_of oid [] = codes "undefined"
value_of oid ((k, x) ∷ vs) =
    let rest = value_of oid vs in if has_oid oid vs then rest else if same k oid then x else rest

unfoldable pub set_verification_matches : List SetVarbind → Values → Bool
unfolding value_of
set_verification_matches expected verified =
    all (λ (v : SetVarbind). same (value_of v.oid verified) v.value) expected

unfoldable pub read_back : Device → List SetVarbind → Values → Attempt
read_back d vs before = elim d.after [
  | err e ↦ record { result = err e; before = some before; sent = vs }
  | ok after ↦
      if set_verification_matches vs after
      then record { result = ok after; before = some before; sent = vs }
      else record {
        result = err (coded (codes "SNMP_SET_VERIFICATION_MISMATCH"));
        before = some before;
        sent = vs;
      }
]

unfoldable pub write : Device → Result Failure (List SetVarbind) → Values → Attempt
unfolding read_back
write d (err e) before = record { result = err e; before = some before; sent = [] }
write d (ok vs) before = elim d.write [
  | err e ↦ record { result = err e; before = some before; sent = vs }
  | ok done ↦ read_back d vs before
]

unfoldable pub write_template : Device → SetTemplate → Attempt
unfolding index_of set_varbinds write
write_template d t = elim (index_of d t) [
  | err e ↦ gave_up e
  | ok index ↦ elim d.before [
    | err e ↦ gave_up e
    | ok before ↦ write d (set_varbinds t index) before
  ]
]

unfoldable pub attempt : Device → Option Parameters → Attempt
unfolding write_template
attempt d p = elim d.session [
  | err e ↦ gave_up e
  | ok open_session ↦ elim (validate_set_template p) [
    | err e ↦ gave_up e
    | ok t ↦ write_template d t
  ]
]

abbrev pub is_uncertain : Text → Bool
is_uncertain code =
    same code (codes "SNMP_TIMEOUT") || same code (codes "SNMP_SET_VERIFICATION_MISMATCH")

unfoldable pub concluded : Attempt → Outcome
concluded a = elim a.result [
  | ok verified ↦ record {
    job = completed;
    job_error = none;
    request = completed;
    request_error = none;
    before_values = a.before;
    verified_values = some verified;
    credential_used = true;
    sent = a.sent;
  }
  | err e ↦ record {
    job = failed;
    job_error = some (public_error_code e);
    request = if is_uncertain (public_error_code e) then needs_attention else failed;
    request_error = some (public_error_code e);
    before_values = a.before;
    verified_values = none;
    credential_used = false;
    sent = a.sent;
  }
]

abbrev pub waiting : Outcome
waiting = record {
  job = queued;
  job_error = none;
  request = queued;
  request_error = none;
  before_values = none;
  verified_values = none;
  credential_used = false;
  sent = [];
}

abbrev pub blocked_by : Text → Outcome
blocked_by code = record waiting {
  job = blocked;
  job_error = some code;
  request = blocked;
  request_error = some code;
}

-- A job that is no valid SET job, or whose device is locked, is left as it is, by an error.
unfoldable pub run : Job → Device → Outcome
unfolding attempt concluded
run j d =
    if not j.is_valid
    then waiting
    else if not j.set_enabled
    then blocked_by (codes "SNMP_SET_DISABLED")
    else if not (j.config_enabled && j.is_write_credential)
    then blocked_by (codes "SNMP_SET_CONFIGURATION_INVALID")
    else if j.lock_is_free
    then concluded (attempt d j.parameters)
    else waiting
