-- ===== src/Infrastructure/Bulk/Tests.antt =====
-- A bulk update at a concrete input.
use management_app.Base.{
  ℕ, ◌+◌, ◌≡◌, refl, String, List, [], ◌∷◌, ◌==◌, Result, ok, err, if◌then◌else◌,
}
use management_app.Infrastructure.Bulk.{
  Fault, persisted, error, Outcome, audit_message, update_devices_individually,
}
use management_app.Infrastructure.Bulk.Outcomes.{Turn, Runs, IsAccount, update_devices-IsAccount}

-- The state counts the calls; the second device is not audited, the third fails.
abbrev update : String → ℕ → ℕ × Result Fault (Unit {0})
update id n = (
  n + 1,
  if id == "d2" then err (persisted id) else if id == "d3" then err (error "em uso") else ok tt,
)

abbrev itself : String → String
itself id = id

abbrev devices : List String
devices = "d1" ∷ "d2" ∷ "d3" ∷ "d4" ∷ []

abbrev outcome : Outcome
outcome = record {
  updated_ids = "d1" ∷ "d2" ∷ "d4" ∷ [];
  failed = record { id = "d3"; message = "em uso" } ∷ [];
  audit_failed = record { id = "d2"; message = audit_message } ∷ [];
}

all_are_called : update_devices_individually itself update devices 0 ≡ (4, outcome)
unfolding update_devices_individually
all_are_called = refl

update_devices-IsAccount_example :
    (rs : List Turn) × Runs itself update devices 0 rs
      (update_devices_individually itself update devices 0).0
    × IsAccount rs (update_devices_individually itself update devices 0).1
update_devices-IsAccount_example = update_devices-IsAccount itself update devices 0
