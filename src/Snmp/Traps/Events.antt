-- ===== src/Snmp/Traps/Events.antt =====
-- What is stored of a notification and what becomes of it: `persist`, `process`, `recoverPending` and
-- `cleanupExpiredEnrollments` of traps.ts. `now` is the time of a call, in milliseconds, and `id` the
-- id that the database makes.
use management_app.Base.{
  ℕ, zero, suc, ◌+◌, ◌-◌, ◌*◌, ◌/◌, ◌%◌, String, Bool, true, false, not, Option, none, some, List,
  [], ◌∷◌, ◌++◌, map, filter, find, any, length, ltb, leb, if◌then◌else◌,
}
use management_app.Text.{Text, codes, lower}
use management_app.Text.Sets.{same}
use management_app.Snmp.Limits.{allowed}
use management_app.Snmp.Listeners.{is_text}
use management_app.Snmp.Traps.Store.{
  Credential, Device, Enrollment, EnrollmentStatus, text, Varbind, EventStatus, pending, processed,
  unmatched, Event, State, is_pending,
}
use management_app.Snmp.Traps.Notifications.{
  Host, RawVarbind, normalized_value, EngineId, engine_text, engine_bytes, no_engine, Notification,
  classify_trap, is_supported_notification_pdu, is_type, raw_identity, version_of,
}
use management_app.Snmp.Traps.Association.{Owner, device, enrolled, nobody, owner_of}

abbrev pub hex_digit : ℕ → ℕ
hex_digit n = if ltb n 10 then b'0' + n else b'a' + (n - 10)

-- `buffer.toString('hex')`
unfoldable pub hex_text : List ℕ → Text
hex_text [] = []
hex_text (byte ∷ bytes) = hex_digit (byte / 16) ∷ hex_digit (byte % 16) ∷ hex_text bytes

-- `toLowerCase` is that of ASCII letters.
unfoldable pub engine_id_of : EngineId → Option Text
unfolding hex_text
engine_id_of (engine_text t) = some (map lower t)
engine_id_of (engine_bytes bytes) = some (hex_text bytes)
engine_id_of no_engine = none

abbrev pub normalized_varbind : RawVarbind → Varbind
normalized_varbind v = record { oid = v.oid; type = v.type; value = normalized_value v.value }

abbrev pub text_value : Option Varbind → Option Text
text_value none = none
text_value (some v) = elim v.value [ text t ↦ some t | _ ↦ none ]

unfoldable pub trap_oid_of : List Varbind → Option Text
trap_oid_of vs = text_value (find (λ (v : Varbind). same v.oid (codes "1.3.6.1.6.3.1.1.4.1.0")) vs)

abbrev pub or_text : Option Text → Text → Text
or_text none t = t
or_text (some s) t = s

-- Only informs, which are sent again until they are confirmed, have a key.
unfoldable pub dedup_key_of : Host → Notification → Option Text
unfolding engine_id_of
dedup_key_of h n =
    if is_type h.inform_request n.pdu_type
    then some (
        h.sha256
          (or_text (engine_id_of n.engine_id) n.source_address ++ b':' ∷ or_text n.request_id []))
    else none

abbrev pub or_zero : Option ℕ → ℕ
or_zero none = 0
or_zero (some n) = n

abbrev pub device_of : Owner → Option Text
device_of (device d c) = some d.id
device_of _ = none

abbrev pub credential_of_owner : Owner → Option Text
credential_of_owner (device d c) = some c.id
credential_of_owner _ = none

abbrev pub enrollment_of : Owner → Option Text
enrollment_of (enrolled mapped e) = some e.id
enrollment_of _ = none

abbrev pub status_of : Owner → EventStatus
status_of (device d c) = pending
status_of (enrolled mapped e) = EventStatus.discovered
status_of nobody = unmatched

abbrev pub if_mapped : String → Owner → Option String
if_mapped s (enrolled true e) = some s
if_mapped s _ = none

-- 90 days.
abbrev pub retention : ℕ
retention = 90 * 24 * 60 * 60 * 1000

abbrev pub event_of : Host → ℕ → Text → Notification → List Varbind → Owner → Event
event_of h now id n vs owner = record {
  id = id;
  device_id = device_of owner;
  credential_id = credential_of_owner owner;
  enrollment_id = enrollment_of owner;
  source_address = n.source_address;
  source_port = n.source_port;
  version = version_of n;
  auth_identity = h.sha256 (raw_identity n);
  engine_id = engine_id_of n.engine_id;
  request_id = n.request_id;
  pdu_type = or_zero n.pdu_type;
  trap_oid = trap_oid_of vs;
  varbinds = vs;
  status = status_of owner;
  category = if_mapped "SELF_TEST" owner;
  severity = if_mapped "INFO" owner;
  dedup_key = dedup_key_of h n;
  processed_at = none;
  expires_at = now + retention;
}

-- The unique index on the key: an event whose key is stored already is not stored again.
abbrev pub is_repeated : Event → List Event → Bool
is_repeated e events = elim e.dedup_key [
  | none ↦ false
  | some key ↦ any (λ (f : Event). is_text key f.dedup_key) events
]

abbrev pub or_now : Option ℕ → ℕ → Option ℕ
or_now none now = some now
or_now (some t) now = some t

-- An update that leaves a field alone where it is given none.
abbrev pub keep_or_set : Option Text → Option Text → Option Text
keep_or_set none old = old
keep_or_set (some t) old = some t

abbrev pub noticed : ℕ → Option Text → Enrollment → Enrollment
noticed now oid e = record e {
  status = EnrollmentStatus.discovered;
  first_seen_at = or_now e.first_seen_at now;
  last_seen_at = some now;
  trap_count = e.trap_count + 1;
  latest_trap_oid = keep_or_set oid e.latest_trap_oid;
}

abbrev pub use_credential : ℕ → Text → Device → Device
use_credential now id d = record d {
  snmp_credentials =
      map (λ (c : Credential). if same c.id id then record c { last_used_at = some now } else c)
        d.snmp_credentials;
}

-- A job that the queue does not take is left to `recoverPending`.
abbrev pub enqueue : Bool → Text → State → State
enqueue taken id s = if taken then record s { queued = s.queued ++ id ∷ [] } else s

-- What follows the insertion, by the owner.
unfoldable pub follow_up : Bool → ℕ → Event → Owner → State → State
follow_up taken now e (device d c) s =
    enqueue taken e.id (record s { devices = map (use_credential now c.id) s.devices })
follow_up taken now e (enrolled mapped n) s = record s {
  enrollments =
      map (λ (x : Enrollment). if same x.id n.id then noticed now e.trap_oid x else x)
        s.enrollments;
}
follow_up taken now e nobody s = s

unfoldable pub insert_event : Bool → ℕ → Event → Owner → State → State
insert_event taken now e owner s =
    if is_repeated e s.events
    then s
    else follow_up taken now e owner (record s { events = s.events ++ e ∷ [] })

unfoldable pub store_varbinds : Host → Bool → ℕ → Text → Notification → List Varbind → State → State
store_varbinds h taken now id n vs s =
    let owner = owner_of h now (version_of n) (raw_identity n) n.source_address s in
    if leb (h.json_size vs) 32768
    then insert_event taken now (event_of h now id n vs owner) owner s
    else s

-- The rate is counted before anything else is looked at.
unfoldable pub persist : Host → Bool → ℕ → Text → Notification → State → State
persist h taken now id n s =
    let (through, limits) = allowed h.settings n.source_address now s.limits in
    let counted = record s { limits = limits } in
    if is_supported_notification_pdu h n.pdu_type
    then if through
      then elim n.varbinds [
        | none ↦ counted
        | some vs ↦
            if leb (length vs) 128
            then store_varbinds h taken now id n (map normalized_varbind vs) counted
            else counted
      ]
      else counted
    else s

abbrev pub classified : ℕ → Event → Event
classified now e =
    let (category, severity) = classify_trap e.trap_oid in
    record e {
      status = processed;
      processed_at = some now;
      category = some category;
      severity = some severity;
    }

abbrev pub has_id : Text → Event → Bool
has_id id e = same e.id id

unfoldable pub process : ℕ → Text → State → State
process now id s = elim (find (has_id id) s.events) [
  | none ↦ s
  | some e ↦
      if is_pending e.status
      then record s {
        events = map (λ (f : Event). if same f.id e.id then classified now f else f) s.events;
        audit = s.audit ++ record { action = "SNMP_TRAP_PROCESSED"; entity_id = e.id } ∷ [];
      }
      else s
]

-- `take: 500`
abbrev pub first {ℓ} : {A : Type ℓ} → ℕ → List A → List A
first zero xs = []
first (suc n) [] = []
first (suc n) (x ∷ xs) = x ∷ first n xs

-- `taken` says which jobs the queue takes.
unfoldable pub recover_pending : (Text → Bool) → State → State
recover_pending taken s =
    let events = first 500 (filter (λ (e : Event). is_pending e.status) s.events) in
    record s { queued = s.queued ++ filter taken (map (λ (e : Event). e.id) events) }

-- Deleting an enrollment takes it out of its events.
abbrev pub detached : Text → Event → Event
detached id e = if is_text id e.enrollment_id then record e { enrollment_id = none } else e

unfoldable pub delete_enrollments : List Enrollment → State → State
delete_enrollments [] s = s
delete_enrollments (e ∷ es) s = delete_enrollments es (record s {
  enrollments = filter (λ (x : Enrollment). not (same x.id e.id)) s.enrollments;
  events = map (detached e.id) s.events;
  audit = s.audit ++ record { action = "SNMP_TRAP_ENROLLMENT_EXPIRED"; entity_id = e.id } ∷ [];
})

unfoldable pub cleanup_expired_enrollments : ℕ → State → State
unfolding delete_enrollments
cleanup_expired_enrollments now s =
    delete_enrollments (first 500 (filter (λ (e : Enrollment). leb e.expires_at now) s.enrollments))
      s
