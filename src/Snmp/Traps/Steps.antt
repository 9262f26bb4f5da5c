-- ===== src/Snmp/Traps/Steps.antt =====
-- The receiver of traps.ts as a relation on its tables, with what the API (`deleteEnrollment` and
-- `acceptEnrollment` of snmp.service.ts) and the retention timer of index.ts write to the events.
pub mod Kept
pub mod Sound
use management_app.Base.{
  ℕ, ◌≡◌, ◌≢◌, refl, sym, arith, Bool, true, false, not, Option, none, some, List, [], ◌∷◌, ◌++◌,
  map, any, All, Elem, Bool-cases, if◌then◌else◌, ltb, filter,
}
use management_app.Text.{Text}
use management_app.Text.Sets.{same, same_iff}
use management_app.Snmp.Traps.Store.{
  Event, EventStatus, pending, processed, unmatched, failed, discovered, State, Device, Enrollment,
  Credential,
}
use management_app.Snmp.Listeners.{is_text}
use management_app.Snmp.Listeners.Sockets.{InterfaceRow, ListenerConfig}
use management_app.Snmp.Traps.Notifications.{Host, Notification}
use management_app.Snmp.Traps.Events.{
  persist, process, recover_pending, cleanup_expired_enrollments, has_id,
}

-- Whole other tables, as the API and the host's agent leave them.
pub record Edit : Type 0 where
  pub devices : List Device
  pub enrollments : List Enrollment
  pub interfaces : List InterfaceRow
  pub listener_config : Option ListenerConfig

abbrev pub is_row {ℓ} : {A : Type ℓ} → (A → Text) → List A → Text → Bool
is_row id_of rows id = any (λ x. same (id_of x) id) rows

-- `onDelete: SetNull`: a reference to a row that is no more is emptied.
abbrev pub reference : (Text → Bool) → Option Text → Option Text
reference there none = none
reference there (some id) = if there id then some id else none

abbrev pub has_credential : List Device → Text → Bool
has_credential devices id =
    any (λ (d : Device). is_row (λ (c : Credential). c.id) d.snmp_credentials id) devices

abbrev pub with_references : Edit → Event → Event
with_references e f = record f {
  device_id = reference (is_row (λ (d : Device). d.id) e.devices) f.device_id;
  credential_id = reference (has_credential e.devices) f.credential_id;
  enrollment_id = reference (is_row (λ (x : Enrollment). x.id) e.enrollments) f.enrollment_id;
}

abbrev pub edited : Edit → State → State
edited e s = record s {
  devices = e.devices;
  enrollments = e.enrollments;
  interfaces = e.interfaces;
  listener_config = e.listener_config;
  events = map (with_references e) s.events;
}

-- The events of an enrollment.
abbrev pub of_enrollment : Text → (Event → Event) → Event → Event
of_enrollment id change f = if is_text id f.enrollment_id then change f else f

abbrev pub remove_enrollment : Text → List Enrollment → List Enrollment
remove_enrollment id es = filter (λ (x : Enrollment). not (same x.id id)) es

-- The transaction of `deleteEnrollment`.
abbrev pub disowned : Event → Event
disowned f = record f { enrollment_id = none; status = unmatched }

unfoldable pub delete_enrollment : Text → State → State
delete_enrollment id s = record s {
  events = map (of_enrollment id disowned) s.events;
  enrollments = remove_enrollment id s.enrollments;
}

-- What the transaction of `acceptEnrollment` writes to the tables of the receiver.
abbrev pub adopted : Text → Text → Event → Event
adopted device credential f = record f {
  device_id = some device;
  credential_id = some credential;
  enrollment_id = none;
  status = pending;
}

unfoldable pub adopt_enrollment : Text → Device → Text → State → State
adopt_enrollment id new credential s = record s {
  devices = s.devices ++ new ∷ [];
  events = map (of_enrollment id (adopted new.id credential)) s.events;
  enrollments = remove_enrollment id s.enrollments;
}

-- `retentionTimer`
unfoldable pub delete_expired : ℕ → State → State
delete_expired now s = record s {
  events = filter (λ (f : Event). not (ltb f.expires_at now)) s.events;
}

-- The database gives each event an id of its own.
pub data Step (h : Host) : State → State → Type 0 where
  persists :
      (taken : Bool) (now : ℕ) (id : Text) (n : Notification) (s : State)
      → any (has_id id) s.events ≡ false
      → Step h s (persist h taken now id n s)
  processes : (now : ℕ) (id : Text) (s : State) → Step h s (process now id s)
  recovers : (taken : Text → Bool) (s : State) → Step h s (recover_pending taken s)
  cleans : (now : ℕ) (s : State) → Step h s (cleanup_expired_enrollments now s)
  edits : (e : Edit) (s : State) → Step h s (edited e s)
  deletes : (id : Text) (s : State) → Step h s (delete_enrollment id s)
  accepts :
      (id : Text) (new : Device) (credential : Text) (s : State)
      → Step h s (adopt_enrollment id new credential s)
  expires : (now : ℕ) (s : State) → Step h s (delete_expired now s)

pub data Reachable (h : Host) : State → Type 0 where
  start : (s : State) → s.events ≡ [] → Reachable h s
  later : {s t : State} → Reachable h s → Step h s t → Reachable h t

-- What the status of an event says of its other fields. A device or a credential may be removed.
abbrev pub StatusFits : EventStatus → Event → Type 0
StatusFits pending e = (e.enrollment_id ≡ none) × (e.processed_at ≡ none)
StatusFits processed e = (e.enrollment_id ≡ none) × (e.processed_at ≢ none)
StatusFits unmatched e =
    (e.credential_id ≡ none)
    × (e.device_id ≡ none)
    × (e.enrollment_id ≡ none)
    × (e.processed_at ≡ none)
StatusFits discovered e = (e.credential_id ≡ none) × (e.device_id ≡ none) × (e.processed_at ≡ none)
StatusFits failed e = ⊥

abbrev pub IsFitting : Event → Type 0
IsFitting e = StatusFits e.status e

-- Two events have different ids, and no key in common.
abbrev pub Apart : Event → Event → Type 0
Apart e f = (e.id ≢ f.id) × ((key : Text) → e.dedup_key ≡ some key → f.dedup_key ≢ some key)

abbrev pub AllApart : List Event → Type 0
AllApart [] = Unit
AllApart (e ∷ es) = All (Apart e) es × AllApart es

pub record IsSound (events : List Event) : Type 0 where
  pub fitting : All IsFitting events
  pub apart : AllApart events
