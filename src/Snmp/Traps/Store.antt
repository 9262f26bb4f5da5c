-- ===== src/Snmp/Traps/Store.antt =====
-- The tables that the trap receiver of traps.ts reads and writes.
use management_app.Base.{ℕ, String, Bool, true, false, Option, List}
use management_app.Text.{Text}
use management_app.Snmp.Keyring.{Bytes}
use management_app.Snmp.Credentials.{Version, Stored}
use management_app.Snmp.Limits.{Limits}
use management_app.Snmp.Listeners.Sockets.{InterfaceRow, ListenerConfig}

-- A row of `SnmpCredential`.
pub record Credential : Type 0 where
  pub id : Text
  pub is_trap : Bool
  pub enabled : Bool
  pub stored : Stored
  pub last_used_at : Option ℕ

pub record Device : Type 0 where
  pub id : Text
  pub management_ip : Option Text
  pub snmp_credentials : List Credential

-- `SnmpTrapEnrollmentStatus`
pub data EnrollmentStatus : Type 0 where
  waiting discovered : EnrollmentStatus

-- A row of `SnmpTrapEnrollment`.
pub record Enrollment : Type 0 where
  pub id : Text
  pub site_id : Text
  pub source_address : Text
  pub stored : Stored
  pub status : EnrollmentStatus
  pub expires_at : ℕ
  pub first_seen_at : Option ℕ
  pub last_seen_at : Option ℕ
  pub trap_count : ℕ
  pub latest_trap_oid : Option Text

-- A value of a varbind as `normalizedValue` leaves it: texts, bytes in hexadecimal, `null`, or any
-- other value as it is, of which nothing is asked.
pub data Value : Type 0 where
  text : Text → Value
  hex : Bytes → Value
  null : Value
  other : Value

pub record Varbind : Type 0 where
  pub oid : Text
  pub type : ℕ
  pub value : Value

-- `SnmpTrapStatus`
pub data EventStatus : Type 0 where
  pending processed unmatched failed discovered : EventStatus

-- A row of `SnmpTrapEvent`, without `uptimeTicks`, `errorCode` and `receivedAt`.
pub record Event : Type 0 where
  pub id : Text
  pub device_id : Option Text
  pub credential_id : Option Text
  pub enrollment_id : Option Text
  pub source_address : Text
  pub source_port : ℕ
  pub version : Version
  pub auth_identity : Text
  pub engine_id : Option Text
  pub request_id : Option Text
  pub pdu_type : ℕ
  pub trap_oid : Option Text
  pub varbinds : List Varbind
  pub status : EventStatus
  pub category : Option String
  pub severity : Option String
  pub dedup_key : Option Text
  pub processed_at : Option ℕ
  pub expires_at : ℕ

-- A row of the audit log: the action and the id of what it is about.
pub record AuditRow : Type 0 where
  pub action : String
  pub entity_id : Text

-- `queued` holds the ids of the events whose processing was asked for.
pub record State : Type 0 where
  pub limits : Limits
  pub devices : List Device
  pub enrollments : List Enrollment
  pub interfaces : List InterfaceRow
  pub listener_config : Option ListenerConfig
  pub events : List Event
  pub audit : List AuditRow
  pub queued : List Text

abbrev pub is_pending : EventStatus → Bool
is_pending pending = true
is_pending _ = false
