-- ===== src/Snmp/Traps/Steps/Sound.antt =====
-- Every operation of the receiver keeps the stored events sound.
use management_app.Base.{
  ℕ, ◌≡◌, ◌≢◌, refl, sym, ap, ◌∙◌, inl, inr, arith, Bool, true, false, Option, none, some, List, [],
  ◌∷◌, map, any, find, filter, Elem, Bool-cases, Option-cases, All-Elem, Elem-of_find,
  if◌then◌else◌, leb, ltb, not, length,
}
use mathlib.Core.Path.{subst}
use management_app.Text.{Text}
use management_app.Text.Sets.{same, same_iff}
use management_app.Snmp.Limits.{allowed}
use management_app.Snmp.Listeners.{is_text}
use management_app.Snmp.Traps.Store.{
  Event, EventStatus, pending, processed, unmatched, failed, discovered, State, Enrollment,
  is_pending,
}
use management_app.Snmp.Traps.Notifications.{Host, Notification, RawVarbind}
use management_app.Snmp.Traps.Events.{
  store_varbinds, persist, classified, has_id, process, recover_pending, detached, first,
  delete_enrollments, cleanup_expired_enrollments,
}
use management_app.Snmp.Traps.Steps.{
  Step, persists, processes, recovers, cleans, edits, deletes, accepts, expires, Edit, reference,
  with_references, of_enrollment, disowned, adopted, delete_enrollment, adopt_enrollment,
  delete_expired, Reachable, start, later, StatusFits, IsFitting, Apart, AllApart, IsSound,
}
use management_app.Snmp.Traps.Steps.Kept.{
  AllApart-map, All-map, AllApart-filter, All-filter, store_varbinds-IsSound,
}
use management_app.Snmp.Traps.Notifications.{is_supported_notification_pdu}
use management_app.Snmp.Traps.Events.{normalized_varbind}

persist-IsSound :
    (h : Host) (taken : Bool) (now : ℕ) (id : Text) (n : Notification) (s : State)
    → any (has_id id) s.events ≡ false
    → IsSound s.events
    → IsSound (persist h taken now id n s).events
unfolding persist
persist-IsSound h taken now id n s fresh sound =
    cases (is_supported_notification_pdu h n.pdu_type)
      (allowed h.settings n.source_address now s.limits).0 n.varbinds
  where
    counted : State
    counted = record s { limits = (allowed h.settings n.source_address now s.limits).1 }

    cases :
        (x y : Bool) (o : Option (List RawVarbind))
        → IsSound
            (if x
              then if y
                then elim o [
                  | none ↦ counted
                  | some vs ↦
                      if leb (length vs) 128
                      then store_varbinds h taken now id n (map normalized_varbind vs) counted
                      else counted
                ]
                else counted
              else s).events
    cases false y o = sound
    cases true false o = sound
    cases true true none = sound
    cases true true (some vs) = elim (Bool-cases (leb (length vs) 128)) [
      | inl few ↦
          rw few (
            store_varbinds-IsSound h taken now id n (map normalized_varbind vs) counted fresh sound)
      | inr many ↦ rw many sound
    ]

-- Events of one id are one event.
same_event :
    (e f : Event) (es : List Event) → AllApart es → Elem e es → Elem f es → e.id ≡ f.id → e ≡ f
same_event e f [] h m k i = absurd m
same_event e f (x ∷ es) (a, h) (inl p) (inl q) i = p ∙ sym q
same_event e f (x ∷ es) (a, h) (inl p) (inr k) i =
    absurd ((All-Elem (Apart x) es a k).0 (sym (ap (λ (e : Event). e.id) p) ∙ i))
same_event e f (x ∷ es) (a, h) (inr m) (inl q) i =
    absurd ((All-Elem (Apart x) es a m).0 (sym (i ∙ ap (λ (e : Event). e.id) q)))
same_event e f (x ∷ es) (a, h) (inr m) (inr k) i = same_event e f es h m k i

classified-IsFitting :
    (now : ℕ) (e : Event) → is_pending e.status ≡ true → IsFitting e → IsFitting (classified now e)
classified-IsFitting now e p fits = (of_pending e.status p fits, (λ k. cc))
  where
    of_pending :
        (status : EventStatus)
        → is_pending status ≡ true
        → StatusFits status e
        → e.enrollment_id ≡ none
    of_pending pending p (a, b) = a
    of_pending processed p fits = absurd (cc)
    of_pending unmatched p fits = absurd (cc)
    of_pending failed p fits = absurd fits
    of_pending discovered p fits = absurd (cc)

-- The change that `process` makes.
abbrev processing : ℕ → Event → Event → Event
processing now e f = if same f.id e.id then classified now f else f

process-IsSound :
    (now : ℕ) (id : Text) (s : State) → IsSound s.events → IsSound (process now id s).events
unfolding process
process-IsSound now id s sound = elim (Option-cases (find (has_id id) s.events)) [
  | inl missing ↦ unchanged (ground arith)
  | inr (e, found) ↦ elim (Bool-cases (is_pending e.status)) [
    | inr settled ↦ unchanged (ground arith)
    | inl is_new ↦
        let next : (process now id s).events ≡ map (processing now e) s.events = ground arith in
        subst IsSound (sym next) (record {
          fitting =
              All-map IsFitting IsFitting (processing now e) s.events
                (λ f m fits.
                  one e f is_new
                    (same_event f e s.events sound.apart m
                      (Elem-of_find (has_id id) e s.events found).0)
                    fits)
                sound.fitting;
          apart =
              AllApart-map (processing now e) (λ f. ground arith) (λ f. ground arith) s.events
                sound.apart;
        })
  ]
]
  where
    unchanged : (process now id s).events ≡ s.events → IsSound (process now id s).events
    unchanged e = subst IsSound (sym e) sound

    one :
        (e f : Event)
        → is_pending e.status ≡ true
        → (f.id ≡ e.id → f ≡ e)
        → IsFitting f
        → IsFitting (processing now e f)
    one e f p single fits = elim (Bool-cases (same f.id e.id)) [
      | inr different ↦ rw different fits
      | inl hit ↦ rw hit (
          classified-IsFitting now f
            (subst (λ (f : Event). is_pending f.status ≡ true)
              (sym (single ((same_iff f.id e.id).0 hit))) p)
            fits)
    ]

detached-IsFitting : (id : Text) (e : Event) → IsFitting e → IsFitting (detached id e)
detached-IsFitting id e fits = elim (Bool-cases (is_text id e.enrollment_id)) [
  | inr other ↦ rw other fits
  | inl hit ↦ rw hit (emptied e.status fits)
]
  where
    emptied : (t : EventStatus) → StatusFits t e → StatusFits t (record e { enrollment_id = none })
    emptied pending (a, b) = (refl, b)
    emptied processed (a, b) = (refl, b)
    emptied unmatched (a, b, c, d) = (a, b, refl, d)
    emptied failed fits = fits
    emptied discovered fits = fits

delete_enrollments-IsSound :
    (es : List Enrollment) (s : State) → IsSound s.events → IsSound (delete_enrollments es s).events
unfolding delete_enrollments
delete_enrollments-IsSound [] s sound = sound
delete_enrollments-IsSound (e ∷ es) s sound = delete_enrollments-IsSound es _ (record {
  fitting =
      All-map IsFitting IsFitting (detached e.id) s.events
        (λ f m fits. detached-IsFitting e.id f fits) sound.fitting;
  apart = AllApart-map (detached e.id) (λ f. ground arith) (λ f. ground arith) s.events sound.apart;
})

reference-none : (there : Text → Bool) (o : Option Text) → o ≡ none → reference there o ≡ none
reference-none there o e = rw e refl

with_references-IsFitting : (x : Edit) (e : Event) → IsFitting e → IsFitting (with_references x e)
with_references-IsFitting x e fits = by_status e.status fits
  where
    by_status : (t : EventStatus) → StatusFits t e → StatusFits t (with_references x e)
    by_status pending (a, b) = (reference-none _ e.enrollment_id a, b)
    by_status processed (a, b) = (reference-none _ e.enrollment_id a, b)
    by_status unmatched (a, b, c, d) = (
      reference-none _ e.credential_id a,
      reference-none _ e.device_id b,
      reference-none _ e.enrollment_id c,
      d,
    )
    by_status failed fits = fits
    by_status discovered (a, b, c) =
        (reference-none _ e.credential_id a, reference-none _ e.device_id b, c)

-- An event with an enrollment is a discovered one.
enrolled_lem :
    (id : Text) (e : Event)
    → is_text id e.enrollment_id ≡ true
    → IsFitting e
    → StatusFits discovered e
enrolled_lem id e h fits = by_status e.status fits
  where
    no_enrollment : e.enrollment_id ≢ none
    no_enrollment k = let empty : is_text id e.enrollment_id ≡ false = rw k refl in absurd (cc)

    by_status : (t : EventStatus) → StatusFits t e → StatusFits discovered e
    by_status pending (a, b) = absurd (no_enrollment a)
    by_status processed (a, b) = absurd (no_enrollment a)
    by_status unmatched (a, b, c, d) = absurd (no_enrollment c)
    by_status failed fits = absurd fits
    by_status discovered fits = fits

of_enrollment-IsFitting :
    (id : Text) (change : Event → Event) (e : Event)
    → (StatusFits discovered e → IsFitting (change e))
    → IsFitting e
    → IsFitting (of_enrollment id change e)
of_enrollment-IsFitting id change e turn fits = elim (Bool-cases (is_text id e.enrollment_id)) [
  | inr other ↦ rw other fits
  | inl hit ↦ rw hit (turn (enrolled_lem id e hit fits))
]

-- Changes of events that keep their ids and keys.
module _ (change : Event → Event) (ids : (e : Event) → (change e).id ≡ e.id)
    (keys : (e : Event) → (change e).dedup_key ≡ e.dedup_key)
    (fits : (e : Event) → IsFitting e → IsFitting (change e)) where
  changed-IsSound : (es : List Event) → IsSound es → IsSound (map change es)
  changed-IsSound es sound = record {
    fitting = All-map IsFitting IsFitting change es (λ e m. fits e) sound.fitting;
    apart = AllApart-map change ids keys es sound.apart;
  }

Step-IsSound : {h : Host} {s t : State} → Step h s t → IsSound s.events → IsSound t.events
unfolding recover_pending cleanup_expired_enrollments delete_enrollment adopt_enrollment
    delete_expired
Step-IsSound {h} (persists taken now id n s fresh) sound =
    persist-IsSound h taken now id n s fresh sound
Step-IsSound (processes now id s) sound = process-IsSound now id s sound
Step-IsSound (recovers taken s) sound = sound
Step-IsSound (cleans now s) sound =
    delete_enrollments-IsSound
      (first 500 (filter (λ (e : Enrollment). leb e.expires_at now) s.enrollments)) s sound
Step-IsSound (edits x s) sound =
    changed-IsSound (with_references x) (λ e. refl) (λ e. refl) (with_references-IsFitting x)
      s.events sound
Step-IsSound (deletes id s) sound =
    changed-IsSound (of_enrollment id disowned) (λ e. ground arith) (λ e. ground arith)
      (λ e. of_enrollment-IsFitting id disowned e (λ f. (f.0, f.1, refl, f.2))) s.events sound
Step-IsSound (accepts id new credential s) sound =
    changed-IsSound (of_enrollment id (adopted new.id credential)) (λ e. ground arith)
      (λ e. ground arith)
      (λ e. of_enrollment-IsFitting id (adopted new.id credential) e (λ f. (refl, f.2))) s.events
      sound
Step-IsSound (expires now s) sound = record {
  fitting = All-filter (λ (f : Event). not (ltb f.expires_at now)) IsFitting s.events sound.fitting;
  apart = AllApart-filter (λ (f : Event). not (ltb f.expires_at now)) s.events sound.apart;
}

-- Whatever notifications come, from a table without events on, and however the receiver's operations,
-- the writes of others to its other tables, with the references that they empty, the deletions and
-- acceptances of enrollments by the API and the deletion of expired events alternate: only a discovered
-- event has an enrollment, an unmatched or discovered one has neither a device nor a credential, an
-- event has a time of processing exactly if it is processed, none has failed; no two events have one
-- id, and no key is stored twice, so that an inform which is sent again is stored once.
pub Reachable-IsSound : {h : Host} {s : State} → Reachable h s → IsSound s.events
Reachable-IsSound (start s e) = subst IsSound (sym e) (record { fitting = tt; apart = tt })
Reachable-IsSound (later r st) = Step-IsSound st (Reachable-IsSound r)
