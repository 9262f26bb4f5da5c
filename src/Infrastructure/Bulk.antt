-- ===== src/Infrastructure/Bulk.antt =====
-- bulk-update.ts: devices are updated one after the other, and each has an outcome. `update` is a
-- parameter, which reads and changes a state of any kind.
pub mod Outcomes
mod Tests
use management_app.Base.{String, Option, none, some, List, [], ◌∷◌, Result, ok, err}

-- What an update throws: `PersistedDeviceAuditError`, with its device, an `Error` with its message, or
-- anything else.
pub data Fault : Type 0 where
  persisted : String → Fault
  error : String → Fault
  other : Fault

-- `DeviceBulkFailure`
pub record Failure : Type 0 where
  pub id : String
  pub message : String

-- `DeviceBulkOutcome`
pub record Outcome : Type 0 where
  pub updated_ids : List String
  pub failed : List Failure
  pub audit_failed : List Failure

abbrev pub nothing_done : Outcome
nothing_done = record { updated_ids = []; failed = []; audit_failed = [] }

abbrev pub audit_message : String
audit_message = "A atualização foi guardada, mas não foi possível registar a auditoria."

abbrev pub failed_with : String → String → Outcome → Outcome
failed_with id message o = record o { failed = record { id = id; message = message } ∷ o.failed }

-- What a turn of the loop pushes, in front of what the later turns push.
abbrev pub counted : String → Result Fault (Unit {0}) → Outcome → Outcome
counted id (ok done) o = record o { updated_ids = id ∷ o.updated_ids }
counted id (err (persisted device)) o = record o {
  updated_ids = device ∷ o.updated_ids;
  audit_failed = record { id = device; message = audit_message } ∷ o.audit_failed;
}
counted id (err (error message)) o = failed_with id message o
counted id (err other) o = failed_with id "Falha ao atualizar o equipamento." o

-- `id_of` is the `id` of a device.
unfoldable pub update_devices_individually :
    {S D : Type 0} → (D → String) → (D → S → S × Result Fault (Unit {0})) → List D → S → S × Outcome
update_devices_individually id_of update [] s = (s, nothing_done)
update_devices_individually id_of update (d ∷ ds) s =
    let (t, result) = update d s in
    let (end, later) = update_devices_individually id_of update ds t in
    (end, counted (id_of d) result later)
