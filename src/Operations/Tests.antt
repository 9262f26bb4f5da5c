-- ===== src/Operations/Tests.antt =====
-- An alert that is reported, snoozed by an administrator, and reported again.
use management_app.Base.{◌≡◌, refl, true, none, some, List, [], ◌∷◌, All, ok}
use management_app.Operations.Policies.{AlertRule}
use management_app.Access.{User, admin, has_role}
use management_app.Operations.Alerts.{
  Input, Alert, snoozed, warning, info, created, upsert, snooze, mutable, update_where, AlertAccess,
}
use management_app.Operations.Alerts.States.{
  upserts, snoozes, Reachable, start, later, IsConsistent, Reachable-IsConsistent,
}
use management_app.Operations.Alerts.Keys.{keys, IsUnrepeated, Reachable-IsUnrepeated}

abbrev everyone : AlertAccess
everyone = record { can_see_alert = λ u a. true; can_operate_site = λ u s. true }

abbrev chief : User
chief = record { id = "u1"; roles = admin ∷ [] }

abbrev report : Input
report = record {
  dedup_key = "device:1:down";
  source = "SNMP";
  severity = warning;
  site_id = none;
  entity_type = none;
  entity_id = none;
  title = "down";
  detail = "no answer";
  action_href = none;
}

abbrev snoozed_table : List Alert
snoozed_table = record (created "a1" 100 report) { status = snoozed; snoozed_until = some 500 } ∷ []

is_snoozed_now :
    snooze everyone chief "a1" 500 none 200 (upsert "a1" 100 report []) ≡ ok snoozed_table
unfolding snooze mutable upsert update_where has_role
is_snoozed_now = refl

reached : Reachable everyone (upsert "a2" 300 report snoozed_table)
reached =
    later
      (later (later start (upserts "a1" 100 report []))
        (snoozes chief "a1" 500 none 200 (upsert "a1" 100 report []) snoozed_table is_snoozed_now))
      (upserts "a2" 300 report snoozed_table)

Reachable-IsConsistent_example : All IsConsistent (upsert "a2" 300 report snoozed_table)
Reachable-IsConsistent_example =
    Reachable-IsConsistent everyone (upsert "a2" 300 report snoozed_table) reached

Reachable-IsUnrepeated_example : IsUnrepeated (keys (upsert "a2" 300 report snoozed_table))
Reachable-IsUnrepeated_example =
    Reachable-IsUnrepeated everyone (upsert "a2" 300 report snoozed_table) reached

-- All warnings of the SNMP source are shown, and no window is active.
abbrev everywhere : AlertRule
everywhere = record { source = "SNMP"; site_id = none; min_severity = info }
