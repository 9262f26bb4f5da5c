-- ===== src/Snmp/Service/Accept/Handover.antt =====
-- An enrollment that is accepted hands everything over to the device.
use management_app.Base.{
  ◌<◌, ltb→lt, ◌≡◌, ◌≢◌, refl, sym, ◌∙◌, ap, ◌↔◌, inl, inr, true, false, not, none, some, [], ◌∷◌,
  filter, Elem, Elem-of_filter, Elem-filter, Elem-of_map, Elem-map, Elem-of_find, Elem-append_right,
  Bool-cases, ok, any-false,
}
use mathlib.Core.Path.{subst}
use management_app.Text.{Text, trim}
use management_app.Text.Sets.{same, same_iff}
use management_app.Snmp.Keyring.{Keyring, decrypt_credential}
use management_app.Snmp.Keyring.Rewrap.{decrypt-rewrap}
use management_app.Snmp.Traps.Store.{
  Enrollment, EnrollmentStatus, Event, pending, discovered, waiting,
}
use management_app.Snmp.Service.{keyring_of}
use management_app.Snmp.Service.Secrets.{Credential, trap}
use management_app.Snmp.Service.Enrollments.{has_id}
use management_app.Snmp.Service.Subnets.{Subnet}
use management_app.Snmp.Service.Subnets.Longest.{
  Contains, IsLongest, most_specific_subnet-IsLongest,
}
use management_app.Snmp.Service.Accept.{
  Device, Address, Store, Call, AcceptDto, is_discovered, is_managed_at, is_event_of, adopted,
  new_device, new_credential, accept_enrollment,
}
use management_app.Snmp.Service.Accept.Outcome.{
  Found, after, accept_enrollment-after, linked_row, is_event_of_iff, adopted_event,
}

-- The new device: no device of the site had the address, which now belongs to it in a subnet of the site
-- that contains it.
pub record HasDevice (call : Call) (e : Enrollment) (s t : Store) : Type 0 where
  pub was_new :
      (d : Device)
      → Elem d s.devices
      → d.site_id ≡ e.site_id
      → d.management_ip ≢ some e.source_address
  pub device :
      (d : Device) × Elem d t.devices
      × (d.id ≡ call.device_id)
      × (d.site_id ≡ e.site_id)
      × (d.management_ip ≡ some e.source_address)
  pub address :
      (a : Address) × (n : Subnet) × Elem a t.addresses
      × Elem n s.subnets
      × (a.subnet_id ≡ n.id)
      × (n.site_id ≡ e.site_id)
      × Contains call.platform e.source_address n
      × (a.address ≡ e.source_address)
      × (a.device_id ≡ some call.device_id)

-- The secret and the events of the enrollment are those of the device, and the enrollment is gone.
pub record IsHandedOver (call : Call) (e : Enrollment) (s t : Store) : Type 0 where
  pub is_credential :
      (c : Credential) × (ring : Keyring) × Elem c t.vault.credentials
      × (c.device_id ≡ call.device_id)
      × (c.purpose ≡ trap)
      × (keyring_of call.crypto ≡ ok ring)
      × (c.stored.envelope.key_id ≡ ring.active_key_id)
      × (decrypt_credential call.crypto.aes call.crypto.json c.stored.envelope ring
          ≡ decrypt_credential call.crypto.aes call.crypto.json e.stored.envelope ring)
  pub has_events :
      (x : Event)
      → Elem x s.events
      → x.enrollment_id ≡ some e.id
      → Elem x.id t.queued
        × Elem
            (record x {
              device_id = some call.device_id;
              credential_id = some call.credential_id;
              enrollment_id = none;
              status = pending;
            })
            t.events
  pub others : (x : Event) → Elem x t.events → x.enrollment_id ≢ some e.id
  pub enrollments :
      (x : Enrollment) → Elem x t.vault.enrollments ↔ (Elem x s.vault.enrollments × (x.id ≢ e.id))

is_managed_at_refusal :
    (site address : Text) (d : Device)
    → is_managed_at site address d ≡ false
    → d.site_id ≡ site
    → d.management_ip ≢ some address
is_managed_at_refusal site address d h e k =
    let at_site = (same_iff d.site_id site).1 e in
    let at_address = (same_iff address address).1 refl in
    let t : is_managed_at site address d ≡ true = rw (at_site, k) at_address in cc

pub has_id_iff : (id : Text) (x : Enrollment) → (not (has_id id x) ≡ true) ↔ (x.id ≢ id)
has_id_iff id x = (
  (λ h e. let t = (same_iff x.id id).1 e in cc),
  (λ h. elim (Bool-cases (has_id id x)) [
    | inl k ↦ absurd (h ((same_iff x.id id).0 k))
    | inr k ↦ rw k refl
  ]),
)

module _ (call : Call) (id : Text) (dto : AcceptDto) (s : Store) (f : Found call id s) where
  abbrev pub e : Enrollment
  e = f.enrollment

  pub found_id : Elem e s.vault.enrollments × (e.id ≡ id)
  found_id =
      let (m, h) = Elem-of_find (has_id id) e s.vault.enrollments f.stands in
      (m, (same_iff e.id id).0 h)

  HasDevice-after : HasDevice call e s (after call id dto s f)
  HasDevice-after = record {
    was_new = λ d m.
        is_managed_at_refusal e.site_id e.source_address d
          (any-false (is_managed_at e.site_id e.source_address) d s.devices f.is_new m);
    device = (
      new_device call dto (trim dto.name) e.site_id e.source_address,
      Elem-append_right _ s.devices _ (inl refl),
      refl,
      refl,
      refl,
    );
    address =
        let (a, m, p, q, r) =
          linked_row call.address_id call.device_id f.subnet.id e.source_address s.addresses
            f.addresses f.is_linked in
        let (n, inside, _) =
          subst
            (IsLongest call.platform e.source_address
              (filter (λ (x : Subnet). same x.site_id e.site_id) s.subnets))
            f.is_subnet
            (most_specific_subnet-IsLongest call.platform e.source_address
              (filter (λ (x : Subnet). same x.site_id e.site_id) s.subnets)) in
        let (k, at_site) =
          Elem-of_filter (λ (x : Subnet). same x.site_id e.site_id) f.subnet s.subnets n in
        (a, f.subnet, m, k, p, (same_iff f.subnet.site_id e.site_id).0 at_site, inside, q, r);
  }

  IsHandedOver-after : IsHandedOver call e s (after call id dto s f)
  IsHandedOver-after = record {
    is_credential =
        let new = new_credential call e f.envelope in
        let (opens, active) =
          decrypt-rewrap call.crypto.aes call.crypto.json call.wrap_iv e.stored.envelope f.envelope
            f.ring f.is_wrapped in
        (
          new,
          f.ring,
          Elem-append_right new s.vault.credentials (new ∷ []) (inl refl),
          refl,
          refl,
          f.has_ring,
          active,
          opens,
        );
    has_events = λ x m h.
        let mine : is_event_of id x ≡ true = (is_event_of_iff id x).1 (h ∙ ap some found_id.1) in
        let made = Elem-map (adopted id call.device_id call.credential_id) x s.events m in
        (
          Elem-append_right x.id s.queued _ (
              Elem-map (λ (y : Event). y.id) x (filter (is_event_of id) s.events)
                (Elem-filter (is_event_of id) x s.events m mine)),
          rw mine at made,
        );
    others = λ x m h.
        let (y, n, k) = Elem-of_map (adopted id call.device_id call.credential_id) x s.events m in
        adopted_event id call.device_id call.credential_id y
          (ap (λ (z : Event). z.enrollment_id) (sym k) ∙ h ∙ ap some found_id.1);
    enrollments = λ x. (
      (λ m.
          let (n, k) = Elem-of_filter (λ y. not (has_id id y)) x s.vault.enrollments m in
          (n, λ h. (has_id_iff id x).0 k (h ∙ found_id.1))),
      (λ m.
          Elem-filter (λ y. not (has_id id y)) x s.vault.enrollments m.0
            ((has_id_iff id x).1 (λ h. m.1 (h ∙ sym found_id.1)))),
    );
  }

-- An enrollment is accepted only while it has not run out and after an authenticated trap, and leaves a
-- device at its address, where the site had none, with the address in a subnet of the site that contains
-- it; the secret opens to the same under the active key, as the device's for traps; the events of the
-- enrollment belong to the device and wait to be processed; and no event or row names it any more, while
-- every other enrollment stays.
pub accept_enrollment-HandsOver :
    (call : Call) (id : Text) (dto : AcceptDto) (s t : Store)
    → accept_enrollment call id dto s ≡ ok t
    → (e : Enrollment) × Elem e s.vault.enrollments
      × (e.id ≡ id)
      × (call.now < e.expires_at)
      × (e.status ≡ discovered)
      × HasDevice call e s t
      × IsHandedOver call e s t
accept_enrollment-HandsOver call id dto s t h =
    let (f, done) = accept_enrollment-after call id dto s t h in
    let (m, i) = found_id call id dto s f in
    (
      f.enrollment,
      m,
      i,
      ltb→lt call.now f.enrollment.expires_at f.is_open,
      seen f.enrollment.status f.is_seen,
      subst (HasDevice call f.enrollment s) done (HasDevice-after call id dto s f),
      subst (IsHandedOver call f.enrollment s) done (IsHandedOver-after call id dto s f),
    )
  where
    seen : (x : EnrollmentStatus) → is_discovered x ≡ true → x ≡ discovered
    seen discovered k = refl
    seen waiting k = absurd (cc)
