-- ===== src/Snmp/Sets/Laws.antt =====
-- What a run may send to a device, and when it counts as done.
use management_app.Base.{
  ◌≡◌, ◌≢◌, refl, sym, ◌∙◌, ◌⊎◌, inl, inr, arith, Bool, true, ◌&&◌, Option, none, some, List, [],
  ◌∷◌, ◌++◌, Elem, Elem-append, Bool-cases, if◌then◌else◌, Result, Result-cases, ok, err,
}
use mathlib.Core.Path.{subst, ap}
use management_app.Text.{Text, codes}
use management_app.Text.Sets.{same_iff}
use management_app.Snmp.Contracts.{
  Failure, Parameters, SetTemplate, interface_admin_status, system_identity, validate_set_template,
  SetVarbind, set_varbinds, optional, sys_name_oid, sys_location_oid, admin_status_oid,
}
use management_app.Snmp.Sets.{
  Values, Device, completed, Job, Attempt, gave_up, index_of, value_of, set_verification_matches,
  read_back, write, write_template, attempt, concluded, run,
}

-- What a template allows to be written: the administrative status of one interface, or the name and
-- the location of the system.
abbrev pub Allows : SetTemplate → SetVarbind → Type 0
Allows (interface_admin_status id up) v =
    (index : Text) × (v.oid ≡ admin_status_oid index)
    × (v.value ≡ (if up then codes "1" else codes "2"))
Allows (system_identity name location) v =
    ((v.oid ≡ sys_name_oid) × (name ≡ some v.value))
    ⊎ ((v.oid ≡ sys_location_oid) × (location ≡ some v.value))

Elem-optional :
    (oid : Text) (o : Option Text) (v : SetVarbind)
    → Elem v (optional oid o)
    → (v.oid ≡ oid) × (o ≡ some v.value)
Elem-optional oid none v m = absurd m
Elem-optional oid (some t) v (inl e) = ground arith
Elem-optional oid (some t) v (inr nothing) = absurd nothing

status-Allows :
    (id : Text) (up : Bool) (index : Text) (v w : SetVarbind)
    → w ≡ record { oid = admin_status_oid index; value = if up then codes "1" else codes "2" }
    → v ≡ w
    → Allows (interface_admin_status id up) v
status-Allows id up index v w e h = (index, cc, cc)

set_varbinds-Allows :
    (t : SetTemplate) (index : Option Text) (vs : List SetVarbind) (v : SetVarbind)
    → set_varbinds t index ≡ ok vs
    → Elem v vs
    → Allows t v
unfolding set_varbinds
set_varbinds-Allows (interface_admin_status id up) none vs v h m = absurd (cc)
set_varbinds-Allows (interface_admin_status id up) (some index) [] v h m = absurd m
set_varbinds-Allows (interface_admin_status id up) (some index) (w ∷ ws) v h (inl e) =
    status-Allows id up index v w (cc) e
set_varbinds-Allows (interface_admin_status id up) (some index) (w ∷ ws) v h (inr m) =
    absurd (ground arith)
set_varbinds-Allows (system_identity name location) index vs v h m =
    let e : vs ≡ optional sys_name_oid name ++ optional sys_location_oid location = cc in
    elim (Elem-append v (optional sys_name_oid name) (optional sys_location_oid location)
      (subst (Elem v) e m)) [
        | inl k ↦ inl (Elem-optional sys_name_oid name v k)
        | inr k ↦ inr (Elem-optional sys_location_oid location v k)
      ]

read_back-sent : (d : Device) (vs : List SetVarbind) (b : Values) → (read_back d vs b).sent ≡ vs
unfolding read_back
read_back-sent d vs b = ground arith

-- What is sent was made from the template.
write-sent :
    (d : Device) (r : Result Failure (List SetVarbind)) (b : Values) (v : SetVarbind)
    → Elem v (write d r b).sent
    → (vs : List SetVarbind) × (r ≡ ok vs) × Elem v vs
unfolding write
write-sent d (err e) b v m = absurd m
write-sent d (ok vs) b v m = (vs, refl, subst (Elem v) all_of_it m)
  where
    all_of_it : (write d (ok vs) b).sent ≡ vs
    all_of_it = ground (arith, read_back-sent d vs b)

read_back-result :
    (d : Device) (vs : List SetVarbind) (b verified : Values)
    → (read_back d vs b).result ≡ ok verified
    → (d.after ≡ ok verified) × (set_verification_matches vs verified ≡ true)
unfolding read_back
read_back-result d vs b verified h = elim (Result-cases d.after) [
  | inl (after, e) ↦ ground arith
  | inr (f, e) ↦ absurd (ground arith)
]

write-result :
    (d : Device) (r : Result Failure (List SetVarbind)) (b verified : Values)
    → (write d r b).result ≡ ok verified
    → (d.after ≡ ok verified) × (set_verification_matches (write d r b).sent verified ≡ true)
unfolding write
write-result d (err e) b verified h = absurd (cc)
write-result d (ok vs) b verified h = elim (Result-cases d.write) [
  | inl (done, e) ↦ ground (arith, read_back-result d vs b verified, read_back-sent d vs b)
  | inr (f, e) ↦ absurd (ground arith)
]

gave_up-sent : (a : Attempt) (f : Failure) (v : SetVarbind) → a ≡ gave_up f → ¬ Elem v a.sent
gave_up-sent a f v e m = subst (λ x. Elem v x.sent) e m

template-sent :
    (d : Device) (t : SetTemplate) (v : SetVarbind) → Elem v (write_template d t).sent → Allows t v
unfolding write_template
template-sent d t v m = elim (Result-cases (index_of d t)) [
  | inr (f, e) ↦ absurd (gave_up-sent (write_template d t) f v (ground arith) m)
  | inl (index, e) ↦ elim (Result-cases d.before) [
    | inr (f, k) ↦ absurd (gave_up-sent (write_template d t) f v (ground arith) m)
    | inl (before, k) ↦
        let w : write_template d t ≡ write d (set_varbinds t index) before = ground arith in
        let (vs, made, n) =
          write-sent d (set_varbinds t index) before v (subst (λ x. Elem v x.sent) w m) in
        set_varbinds-Allows t index vs v made n
  ]
]

template-result :
    (d : Device) (t : SetTemplate) (verified : Values)
    → (write_template d t).result ≡ ok verified
    → (d.after ≡ ok verified) × (set_verification_matches (write_template d t).sent verified ≡ true)
unfolding write_template
template-result d t verified h = elim (Result-cases (index_of d t)) [
  | inr (f, e) ↦ absurd (ground arith)
  | inl (index, e) ↦ elim (Result-cases d.before) [
    | inr (f, k) ↦ absurd (ground arith)
    | inl (before, k) ↦ ground (arith, write-result d (set_varbinds t index) before verified)
  ]
]

attempt-sent :
    (d : Device) (p : Option Parameters) (v : SetVarbind)
    → Elem v (attempt d p).sent
    → (t : SetTemplate) × (validate_set_template p ≡ ok t) × Allows t v
unfolding attempt
attempt-sent d p v m = elim (Result-cases d.session) [
  | inr (f, e) ↦ absurd (gave_up-sent (attempt d p) f v (ground arith) m)
  | inl (open_session, e) ↦ elim (Result-cases (validate_set_template p)) [
    | inr (f, k) ↦ absurd (gave_up-sent (attempt d p) f v (ground arith) m)
    | inl (t, k) ↦
        let w : attempt d p ≡ write_template d t = ground arith in
        (t, k, template-sent d t v (subst (λ x. Elem v x.sent) w m))
  ]
]

attempt-result :
    (d : Device) (p : Option Parameters) (verified : Values)
    → (attempt d p).result ≡ ok verified
    → (d.after ≡ ok verified) × (set_verification_matches (attempt d p).sent verified ≡ true)
unfolding attempt
attempt-result d p verified h = elim (Result-cases d.session) [
  | inr (f, e) ↦ absurd (ground arith)
  | inl (open_session, e) ↦ elim (Result-cases (validate_set_template p)) [
    | inr (f, k) ↦ absurd (ground arith)
    | inl (t, k) ↦ ground (arith, template-result d t verified)
  ]
]

concluded-sent : (a : Attempt) → (concluded a).sent ≡ a.sent
unfolding concluded
concluded-sent a = ground arith

concluded-completed :
    (a : Attempt)
    → (concluded a).request ≡ completed
    → (verified : Values) × (a.result ≡ ok verified)
      × ((concluded a).verified_values ≡ some verified)
unfolding concluded
concluded-completed a h = elim (Result-cases a.result) [
  | inl (verified, e) ↦ (verified, e, ground arith)
  | inr (f, e) ↦ absurd (ground arith)
]

matches-Elem :
    (expected : List SetVarbind) (verified : Values) (v : SetVarbind)
    → set_verification_matches expected verified ≡ true
    → Elem v expected
    → value_of v.oid verified ≡ v.value
unfolding set_verification_matches
matches-Elem [] verified v h m = absurd m
matches-Elem (w ∷ ws) verified v h (inl e) =
    ground (arith, same_iff (value_of w.oid verified) w.value)
matches-Elem (w ∷ ws) verified v h (inr m) = matches-Elem ws verified v (ground arith) m

-- Whether a run gets as far as the device.
abbrev pub is_cleared : Job → Bool
is_cleared j =
    j.is_valid && j.set_enabled && j.config_enabled && j.is_write_credential && j.lock_is_free

run_cases :
    (j : Job) (d : Device)
    → ((is_cleared j ≡ true) × (run j d ≡ concluded (attempt d j.parameters)))
      ⊎ (((run j d).sent ≡ []) × ((run j d).request ≢ completed))
unfolding run
run_cases j d = elim (Bool-cases (is_cleared j)) [
  | inl e ↦ inl (e, ground arith)
  | inr e ↦ inr (ground arith, ground arith)
]

-- Whatever a run sends to a device, writing is enabled, the configuration of the device is, the
-- credential is one for writing and the lock was free; the stored parameters are a valid template, and
-- what is sent is the status of an interface or the name or location that the template gives.
pub run_sent :
    (j : Job) (d : Device) (v : SetVarbind)
    → Elem v (run j d).sent
    → (is_cleared j ≡ true)
      × ((t : SetTemplate) × (validate_set_template j.parameters ≡ ok t) × Allows t v)
run_sent j d v m = elim (run_cases j d) [
  | inr (e, k) ↦ absurd (subst (Elem v) e m)
  | inl (c, e) ↦ (
    c,
    attempt-sent d j.parameters v
        (subst (Elem v) (concluded-sent (attempt d j.parameters)) (subst (λ o. Elem v o.sent) e m)),
  )
]

-- A write request is completed only with the values that the device answered after the write, among
-- which each value that was sent stands under its OID.
pub run_completed :
    (j : Job) (d : Device)
    → (run j d).request ≡ completed
    → (verified : Values) × ((run j d).verified_values ≡ some verified)
      × (d.after ≡ ok verified)
      × ((v : SetVarbind) → Elem v (run j d).sent → value_of v.oid verified ≡ v.value)
run_completed j d h = elim (run_cases j d) [
  | inr (e, k) ↦ absurd (k h)
  | inl (c, e) ↦
      let a : Attempt = attempt d j.parameters in
      let (verified, r, k) = concluded-completed a (sym (ap (λ o. o.request) e) ∙ h) in
      let (after, matches) = attempt-result d j.parameters verified r in
      (
        verified,
        ap (λ o. o.verified_values) e ∙ k,
        after,
        λ v m.
            matches-Elem a.sent verified v matches
              (subst (Elem v) (concluded-sent a) (subst (λ o. Elem v o.sent) e m)),
      )
]
