-- ===== src/Snmp/Service/Writes/Stored.antt =====
-- A template that a preview stores is read back by the worker as the same template.
use management_app.Base.{
  ◌≡◌, refl, sym, ◌∙◌, ap, inl, inr, arith, Bool, Option, some, is_empty, Bool-cases, ok,
  bind-eq-ok, or_throw_bind,
}
use mathlib.Core.Path.{subst}
use management_app.Text.{Text, codes, trim}
use management_app.Text.Trim.{trim_idem}
use management_app.Snmp.Contracts.{
  Field, text, boolean, no_field, Parameters, SetTemplate, interface_admin_status, system_identity,
  is_operation, as_text, as_boolean, trimmed, snmp_payload, interface_template, system_template,
  validate_set_template,
}
use management_app.Snmp.Service.Writes.{field_of, stored_parameters}

-- What stands in a template has been trimmed.
trimmed_idem : (f : Field) → trimmed (field_of (trimmed f)) ≡ trimmed f
trimmed_idem (boolean b) = refl
trimmed_idem no_field = refl
trimmed_idem (text t) = elim (Bool-cases (is_empty (trim t))) [
  | inl e ↦ rw e refl
  | inr e ↦ rw e (rw (trim_idem t, e) refl)
]

interface_stored :
    (p : Parameters) (t : SetTemplate)
    → interface_template p ≡ ok t
    → interface_template (stored_parameters t) ≡ ok t
unfolding interface_template stored_parameters
interface_stored p t h =
    let (id, e1, h1) = or_throw_bind (as_text p.interface_id) _ _ h in
    let (up, e2, h2) = or_throw_bind (as_boolean p.admin_up) _ _ h1 in
    let (payload, e3, h3) = bind-eq-ok (snmp_payload id) _ h2 in
    let made : interface_admin_status id up ≡ t = cc in
    subst (λ t. interface_template (stored_parameters t) ≡ ok t) made (rw e3 refl)

interface_made :
    (p : Parameters) (t : SetTemplate)
    → interface_template p ≡ ok t
    → (id : Text) × (up : Bool) × (interface_admin_status id up ≡ t)
unfolding interface_template
interface_made p t h =
    let (id, e1, h1) = or_throw_bind (as_text p.interface_id) _ _ h in
    let (up, e2, h2) = or_throw_bind (as_boolean p.admin_up) _ _ h1 in
    let (payload, e3, h3) = bind-eq-ok (snmp_payload id) _ h2 in (id, up, cc)

system_made :
    (name location : Option Text) (t : SetTemplate)
    → system_template name location ≡ ok t
    → system_identity name location ≡ t
unfolding system_template
system_made name location t h = ground arith

-- A template that was valid is valid when it comes from the table, and stays what it is.
pub validate-stored_parameters :
    (p : Parameters) (t : SetTemplate)
    → validate_set_template (some p) ≡ ok t
    → validate_set_template (some (stored_parameters t)) ≡ ok t
unfolding validate_set_template stored_parameters
validate-stored_parameters p t h =
    elim (Bool-cases (is_operation (codes "INTERFACE_ADMIN_STATUS") p.operation)) [
      | inl i ↦
          let made : interface_template p ≡ ok t = rw i at h in
          let (id, up, e) = interface_made p t made in
          subst (λ t. validate_set_template (some (stored_parameters t)) ≡ ok t) e
            (subst (λ t. interface_template (stored_parameters t) ≡ ok t) (sym e)
              (interface_stored p t made))
      | inr i ↦ elim (Bool-cases (is_operation (codes "SYSTEM_IDENTITY") p.operation)) [
        | inl k ↦
            let made : system_template (trimmed p.sys_name) (trimmed p.sys_location) ≡ ok t =
              rw (i, k) at h in
            let e = system_made (trimmed p.sys_name) (trimmed p.sys_location) t made in
            subst (λ t. validate_set_template (some (stored_parameters t)) ≡ ok t) e
              (rw (trimmed_idem p.sys_name, trimmed_idem p.sys_location)
                (made ∙ ap (λ (x : SetTemplate). ok x) (sym e)))
        | inr k ↦ absurd (ground arith)
      ]
    ]
