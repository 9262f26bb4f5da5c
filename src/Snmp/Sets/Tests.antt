-- ===== src/Snmp/Sets/Tests.antt =====
-- Writes to a device at concrete inputs.
use management_app.Base.{◌≡◌, refl, true, none, some, [], ◌∷◌, ok, Elem}
use management_app.Text.{codes}
use management_app.Snmp.Contracts.{
  Parameters, text, no_field, validate_set_template, SetVarbind, sys_name_oid,
}
use management_app.Snmp.Sets.{
  Values, set_verification_matches, Device, Job, completed, run, value_of,
}
use management_app.Snmp.Sets.Laws.{run_completed}

abbrev renaming : Parameters
renaming = record {
  operation = text (codes "SYSTEM_IDENTITY");
  interface_id = no_field;
  admin_up = no_field;
  sys_name = text (codes "sw1 ");
  sys_location = no_field;
}

abbrev new_name : SetVarbind
new_name = record { oid = sys_name_oid; value = codes "sw1" }

abbrev named : Values
named = (sys_name_oid, codes "sw1") ∷ []

abbrev device : Device
device = record {
  session = ok tt;
  observation = none;
  identity = ok (codes "ge-0/0/1");
  before = ok ((sys_name_oid, codes "old") ∷ []);
  write = ok tt;
  after = ok named;
}

abbrev job : Job
job = record {
  is_valid = true;
  set_enabled = true;
  config_enabled = true;
  is_write_credential = true;
  lock_is_free = true;
  parameters = some renaming;
}

run_sends : (run job device).sent ≡ new_name ∷ []
unfolding run validate_set_template set_verification_matches
run_sends = refl

run_ends : (run job device).request ≡ completed
unfolding run validate_set_template set_verification_matches
run_ends = refl

run_completed_example :
    (verified : Values) × ((run job device).verified_values ≡ some verified)
    × (device.after ≡ ok verified)
    × ((v : SetVarbind) → Elem v (run job device).sent → value_of v.oid verified ≡ v.value)
unfolding run validate_set_template set_verification_matches
run_completed_example = run_completed job device refl
