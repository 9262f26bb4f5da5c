-- ===== src/Snmp/Service/Drifts.antt =====
-- `reviewDrift` of snmp.service.ts.
use management_app.Base.{
  ℕ, Bool, Option, some, List, map, find, if◌then◌else◌, Result, ok, ◌>>=◌, ◌>>◌, or_throw,
}
use management_app.Base.HttpError.{not_found}
use management_app.Text.{Text}
use management_app.Text.Sets.{same}
use management_app.Snmp.Polls.Drifts.{DriftStatus}
use management_app.Snmp.Service.Secrets.{Fault, http}

-- A row of `SnmpDrift`, as far as a review goes.
pub record Drift : Type 0 where
  pub id : Text
  pub device_id : Text
  pub status : DriftStatus
  pub reviewed_by : Option Text
  pub reviewed_at : Option ℕ

abbrev pub is_drift : Text → Drift → Bool
is_drift id d = same d.id id

abbrev pub reviewed : Text → DriftStatus → Text → ℕ → Drift → Drift
reviewed id status user now d =
    if is_drift id d
    then record d { status = status; reviewed_by = some user; reviewed_at = some now }
    else d

unfoldable pub review_drift :
    (Text → Result Fault (Unit {0}))
    → Text
    → DriftStatus
    → Text
    → ℕ
    → List Drift
    → Result Fault (List Drift)
review_drift permitted id status user now ds = do
  drift ← or_throw (find (is_drift id) ds) (http (not_found "Divergência SNMP não encontrada"))
  permitted drift.device_id
  ok (map (reviewed id status user now) ds)
