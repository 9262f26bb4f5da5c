-- ===== src/Snmp/Service/Writes/Tests.antt =====
-- The name of a switch is changed: previewed, submitted and run.
use management_app.Base.{◌≡◌, ◌≢◌, refl, inl, true, ◌&&◌, none, some, false, [], ◌∷◌, Elem, ok}
use management_app.Text.{codes}
use management_app.Snmp.Contracts.{
  plain, text, no_field, SetTemplate, system_identity, validate_set_template, SetVarbind,
  sys_name_oid, public_error_code,
}
use management_app.Snmp.Sets
use management_app.Snmp.Service.Jobs
use management_app.Snmp.Sets.Laws.{Allows}
use management_app.Snmp.Service.Writes.{
  WriteRequest, pending, Tables, PreviewDto, previewed, preview_write, execute_claim, execute_write,
  World, Run, System, start_run, end_run, sent_by, stored_parameters, assert_interface,
}
use management_app.Snmp.Service.Writes.Spec.{Stage, waiting, ended, broken, submitted, view}
use management_app.Snmp.Service.Writes.Views.{Moves}
use management_app.Snmp.Service.Writes.Steps.{
  Step, previews, claims, starts, Reachable, start, next,
}
use management_app.Snmp.Service.Writes.Refines.{Step-Moves}
use management_app.Snmp.Service.Writes.Sent.{run-Allows}

abbrev dto : PreviewDto
dto = record {
  operation = codes "SYSTEM_IDENTITY";
  own_operation = none;
  parameters = record {
    operation = no_field;
    interface_id = no_field;
    admin_up = no_field;
    sys_name = text (codes "sw1 ");
    sys_location = no_field;
  };
}

abbrev template : SetTemplate
template = system_identity (some (codes "sw1")) none

abbrev empty : Tables
empty = record { interfaces = []; requests = []; jobs = []; queue = [] }

abbrev draft : WriteRequest
draft = previewed (codes "w1") (codes "d1") (codes "admin") dto template

abbrev with_draft : Tables
with_draft = record empty { requests = draft ∷ [] }

abbrev claimed : Tables
claimed = record with_draft {
  requests = record draft { status = pending; job_id = some (codes "j1") } ∷ [];
  jobs =
      record {
        id = codes "j1";
        device_id = codes "d1";
        credential_id = codes "c1";
        requested_by = codes "admin";
        status = Jobs.pending;
        error_code = none;
      }
      ∷ [];
}

abbrev submitted_tables : Tables
submitted_tables = record claimed { queue = codes "j1" ∷ [] }

drafted : preview_write (ok tt) (codes "w1") (codes "d1") (codes "admin") dto empty ≡ ok with_draft
unfolding preview_write validate_set_template assert_interface
drafted = refl

taken : execute_claim (codes "j1") (codes "admin") draft (codes "c1") with_draft ≡ ok claimed
unfolding execute_claim
taken = refl

-- The whole call does the same.
executed :
    execute_write true
      (λ d. ok tt)
      (λ d. some (codes "c1"))
      true
      (codes "j1")
      (codes "admin")
      (codes "w1")
      with_draft
    ≡ ok submitted_tables
unfolding execute_write
executed = refl

abbrev world : World
world = record {
  has_address = true;
  set_enabled = true;
  config_enabled = true;
  is_write_credential = true;
  lock_is_free = true;
  device = record {
    session = ok tt;
    observation = none;
    identity = ok [];
    before = ok ((sys_name_oid, codes "old") ∷ []);
    write = ok tt;
    after = ok ((sys_name_oid, codes "sw1") ∷ []);
  };
}

abbrev new_name : SetVarbind
new_name = record { oid = sys_name_oid; value = codes "sw1" }

abbrev quiet : Tables → System
quiet t = record { tables = t; runs = [] }

reached : Reachable (quiet with_draft)
reached = next (quiet empty) (quiet with_draft) (start []) (
    previews (ok tt) (codes "w1") (codes "d1") (codes "admin") dto empty with_draft []
      (λ r m. absurd m) drafted)

claim : Step (quiet with_draft) (quiet submitted_tables)
claim =
    claims true (codes "j1") (codes "admin") draft (codes "c1") with_draft claimed []
      (λ b m. absurd m) taken

abbrev under_way : System
under_way = start_run world (codes "j1") (quiet submitted_tables)

run_begins : Step (quiet submitted_tables) under_way
run_begins = starts world (codes "j1") (quiet submitted_tables) (inl refl)

is_reached : Reachable (quiet submitted_tables)
is_reached = next (quiet with_draft) (quiet submitted_tables) reached claim

Step-Moves_example : Moves (view submitted_tables (codes "w1")) (view under_way.tables (codes "w1"))
Step-Moves_example =
    Step-Moves (quiet submitted_tables) under_way (codes "w1") is_reached run_begins

abbrev run : Run
run = record {
  world = world;
  job = codes "j1";
  request = record draft { status = pending; job_id = some (codes "j1") };
}

is_under_way : under_way.runs ≡ run ∷ []
unfolding start_run stored_parameters Sets.run validate_set_template Sets.set_verification_matches
is_under_way = refl

sends : sent_by run ≡ new_name ∷ []
unfolding stored_parameters Sets.run validate_set_template Sets.set_verification_matches
sends = refl

-- Where the last transaction fails, the request is left as it is while the run is under way.
left_running : end_run none false run under_way.tables ≡ under_way.tables
unfolding end_run
left_running = refl

-- Where the transaction that completes it fails, the run fails although the device has the new name.
failed_late :
    (view (end_run (some (plain (codes "lost"))) true run under_way.tables) (codes "w1"))
    ≡ submitted template (some (codes "j1")) (ended broken)
unfolding end_run start_run stored_parameters Sets.run validate_set_template
    Sets.set_verification_matches Sets.concluded public_error_code
failed_late = refl

-- The lock is taken by another: nothing is written, and the job is no longer in the queue.
left_pending :
    start_run (record world { lock_is_free = false }) (codes "j1") (quiet submitted_tables)
    ≡ quiet claimed
unfolding start_run stored_parameters Sets.run validate_set_template Sets.set_verification_matches
left_pending = refl

is_sent : Elem new_name (sent_by run)
is_sent = rw sends (inl refl)

has_run : Elem run under_way.runs
has_run = rw is_under_way (inl refl)

run-Allows_example :
    (r : WriteRequest) × Elem r under_way.tables.requests
    × ((q : WriteRequest) → Elem q under_way.tables.requests → q.job_id ≡ some run.job → q ≡ r)
    × ((p : Stage) × (p ≢ waiting)
        × (view under_way.tables r.id ≡ submitted r.template (some run.job) p))
    × Allows r.template new_name
    × (run.world.has_address && run.world.set_enabled && run.world.config_enabled
          && run.world.is_write_credential && run.world.lock_is_free
        ≡ true)
run-Allows_example =
    run-Allows under_way run new_name
      (next (quiet submitted_tables) under_way is_reached run_begins) has_run is_sent
