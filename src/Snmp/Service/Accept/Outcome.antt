-- ===== src/Snmp/Service/Accept/Outcome.antt =====
-- What an enrollment that is accepted leaves behind.
use management_app.Base.{
  ltb, ◌≡◌, ◌≢◌, refl, ◌∙◌, ap, ◌↔◌, inl, inr, arith, true, false, not, ◌&&◌, Option, none, some,
  List, [], ◌∷◌, ◌++◌, map, filter, find, any, is_empty, Elem, Elem-map, Elem-of_find,
  Elem-append_right, Bool-cases, Option-cases, if◌then◌else◌, Result, ok, bind-eq-ok, seq-eq-ok,
  or_throw_bind, guard_bind,
}
use mathlib.Core.Path.{subst}
use management_app.Text.{Text, trim}
use management_app.Text.Sets.{same, same_iff}
use management_app.Snmp.Keyring.{Keyring, Envelope, rewrap_credential}
use management_app.Snmp.Traps.Store.{Enrollment, Event}
use management_app.Snmp.Service.{keyring_of}
use management_app.Snmp.Service.Secrets.{thrown}
use management_app.Snmp.Service.Enrollments.{has_id}
use management_app.Snmp.Service.Subnets.{Subnet, most_specific_subnet}
use management_app.Snmp.Service.Accept.{
  Address, Store, Call, AcceptDto, is_discovered, is_there, is_managed_at, is_occupied, is_row,
  link_address, is_event_of, adopted, new_device, new_credential, assert_enrollment_operator,
  validate_onboarding_assets, accept_checks, accept_transaction, accept_enrollment,
}
use management_app.Snmp.Service.Exclusive.Holders.{thrown-ok}

-- What a call that succeeds has found.
pub record Found (call : Call) (id : Text) (s : Store) : Type 0 where
  pub enrollment : Enrollment
  pub subnet : Subnet
  pub ring : Keyring
  pub envelope : Envelope
  pub addresses : List Address
  pub stands : find (has_id id) s.vault.enrollments ≡ some enrollment
  pub is_operator : assert_enrollment_operator call.roles ≡ ok tt
  pub is_open : ltb call.now enrollment.expires_at ≡ true
  pub is_seen : is_discovered enrollment.status ≡ true
  pub is_new : any (is_managed_at enrollment.site_id enrollment.source_address) s.devices ≡ false
  pub is_subnet :
      most_specific_subnet call.platform enrollment.source_address
        (filter (λ (x : Subnet). same x.site_id enrollment.site_id) s.subnets)
      ≡ some subnet
  pub has_ring : keyring_of call.crypto ≡ ok ring
  pub is_wrapped :
      rewrap_credential call.crypto.aes call.wrap_iv enrollment.stored.envelope ring ≡ ok envelope
  pub is_linked :
      link_address call.address_id call.device_id subnet.id enrollment.source_address s.addresses
      ≡ ok addresses

abbrev pub left_by : Call → Text → AcceptDto → Enrollment → Envelope → List Address → Store → Store
left_by call id dto current e addresses s = record {
  vault = record {
    credentials = s.vault.credentials ++ new_credential call current e ∷ [];
    enrollments = filter (λ x. not (has_id id x)) s.vault.enrollments;
  };
  devices =
      s.devices ++ new_device call dto (trim dto.name) current.site_id current.source_address ∷ [];
  subnets = s.subnets;
  addresses = addresses;
  events = map (adopted id call.device_id call.credential_id) s.events;
  queued = s.queued ++ map (λ (x : Event). x.id) (filter (is_event_of id) s.events);
}

abbrev pub after : (call : Call) (id : Text) → AcceptDto → (s : Store) → Found call id s → Store
after call id dto s f = left_by call id dto f.enrollment f.envelope f.addresses s

pub ok-injective : {E A : Type 0} {a b : A} → ◌≡◌ {A = Result E A} (ok a) (ok b) → a ≡ b
ok-injective h = cc

checks_lem :
    (call : Call) (id : Text) (dto : AcceptDto) (s : Store) (p : Subnet × Envelope)
    → accept_checks call id dto s ≡ ok p
    → (first : Enrollment) × (ring : Keyring) × (assert_enrollment_operator call.roles ≡ ok tt)
      × (find (has_id id) s.vault.enrollments ≡ some first)
      × (most_specific_subnet call.platform first.source_address
            (filter (λ (x : Subnet). same x.site_id first.site_id) s.subnets)
          ≡ some p.0)
      × (keyring_of call.crypto ≡ ok ring)
      × (rewrap_credential call.crypto.aes call.wrap_iv first.stored.envelope ring ≡ ok p.1)
unfolding accept_checks
checks_lem call id dto s p h =
    let (operator, k1) = seq-eq-ok (assert_enrollment_operator call.roles) _ h in
    let (named, k2) = guard_bind (not (is_empty (trim dto.name))) _ _ k1 in
    let (first, e1, k3) = or_throw_bind (find (has_id id) s.vault.enrollments) _ _ k2 in
    let (open1, k4) = guard_bind (ltb call.now first.expires_at) _ _ k3 in
    let (seen, k5) =
      guard_bind (is_discovered first.status && is_there first.first_seen_at) _ _ k4 in
    let (allowed, k6) = seq-eq-ok (call.permitted first.site_id) _ k5 in
    let (assets, k7) =
      seq-eq-ok
        (validate_onboarding_assets call.models call.has_asset dto.type dto.model_id
          dto.front_asset_id)
        _ k6 in
    let (subnet, e2, k8) =
      or_throw_bind
        (most_specific_subnet call.platform first.source_address
          (filter (λ (x : Subnet). same x.site_id first.site_id) s.subnets))
        _ _ k7 in
    let (ring, e3, k9) = bind-eq-ok (keyring_of call.crypto) _ k8 in
    let (envelope, e4, k10) =
      bind-eq-ok
        (thrown (rewrap_credential call.crypto.aes call.wrap_iv first.stored.envelope ring)) _ k9 in
    let pair : (subnet, envelope) ≡ p = cc (k10) in
    (
      first,
      ring,
      operator,
      e1,
      e2 ∙ ap (λ (q : Subnet × Envelope). some q.0) pair,
      e3,
      thrown-ok (rewrap_credential call.crypto.aes call.wrap_iv first.stored.envelope ring) envelope
            e4
          ∙ ap (λ (q : Subnet × Envelope). ok q.1) pair,
    )

transaction_lem :
    (call : Call) (id : Text) (dto : AcceptDto) (subnet : Subnet) (e : Envelope) (s t : Store)
    → accept_transaction call id dto (trim dto.name) subnet e s ≡ ok t
    → (current : Enrollment) × (addresses : List Address) × (find (has_id id) s.vault.enrollments
        ≡ some current)
      × (ltb call.now current.expires_at && is_discovered current.status ≡ true)
      × (not (any (is_managed_at current.site_id current.source_address) s.devices) ≡ true)
      × (link_address call.address_id call.device_id subnet.id current.source_address s.addresses
          ≡ ok addresses)
      × (left_by call id dto current e addresses s ≡ t)
unfolding accept_transaction
transaction_lem call id dto subnet e s t h =
    let (current, e5, k1) = or_throw_bind (find (has_id id) s.vault.enrollments) _ _ h in
    let (open2, k2) =
      guard_bind (ltb call.now current.expires_at && is_discovered current.status) _ _ k1 in
    let (unmanaged, k3) =
      guard_bind (not (any (is_managed_at current.site_id current.source_address) s.devices)) _ _
        k2 in
    let (vacant, k4) =
      guard_bind
        (not (any (is_occupied s.subnets current.site_id current.source_address) s.addresses)) _ _
        k3 in
    let (addresses, linked, k5) =
      bind-eq-ok
        (link_address call.address_id call.device_id subnet.id current.source_address s.addresses) _
        k4 in
    (current, addresses, e5, open2, unmanaged, linked, ok-injective k5)

pub accept_enrollment-after :
    (call : Call) (id : Text) (dto : AcceptDto) (s t : Store)
    → accept_enrollment call id dto s ≡ ok t
    → (f : Found call id s) × (after call id dto s f ≡ t)
unfolding accept_enrollment
accept_enrollment-after call id dto s t h =
    let (p, checked, k) = bind-eq-ok (accept_checks call id dto s) _ h in
    let (first, ring, operator, e1, e2, e3, e4) = checks_lem call id dto s p checked in
    let (current, addresses, e5, is_free, unmanaged, linked, done) =
      transaction_lem call id dto p.0 p.1 s t k in
    let one : first ≡ current = cc (e1, e5) in
    (
      record {
        enrollment = current;
        subnet = p.0;
        ring = ring;
        envelope = p.1;
        addresses = addresses;
        stands = e5;
        is_operator = operator;
        is_open = ground arith;
        is_seen = ground arith;
        is_new = ground arith;
        is_subnet =
            subst
              (λ (x : Enrollment).
                most_specific_subnet call.platform x.source_address
                  (filter (λ (y : Subnet). same y.site_id x.site_id) s.subnets)
                ≡ some p.0)
              one e2;
        has_ring = e3;
        is_wrapped =
            subst
              (λ (x : Enrollment).
                rewrap_credential call.crypto.aes call.wrap_iv x.stored.envelope ring ≡ ok p.1)
              one e4;
        is_linked = linked;
      },
      done,
    )

pub linked_row :
    (id device subnet address : Text) (rows after_rows : List Address)
    → link_address id device subnet address rows ≡ ok after_rows
    → (a : Address) × Elem a after_rows
      × (a.subnet_id ≡ subnet)
      × (a.address ≡ address)
      × (a.device_id ≡ some device)
unfolding link_address
linked_row id device subnet address rows after_rows h =
    elim (Option-cases (find (is_row subnet address) rows)) [
      | inl new ↦
          let made : rows ++ row ∷ [] ≡ after_rows = ground arith in
          (
            row,
            subst (Elem row) made (Elem-append_right row rows (row ∷ []) (inl refl)),
            refl,
            refl,
            refl,
          )
      | inr (old, found) ↦ elim (Bool-cases (is_there old.device_id)) [
        | inl used ↦ absurd (ground arith)
        | inr free ↦
            let made : map (linked old) rows ≡ after_rows = ground arith in
            let (m, k) = Elem-of_find (is_row subnet address) old rows found in
            let self = (same_iff old.id old.id).1 refl in
            (
              linked old old,
              subst (Elem (linked old old)) made (Elem-map (linked old) old rows m),
              rw self ((same_iff old.subnet_id subnet).0 (ground arith)),
              rw self ((same_iff old.address address).0 (ground arith)),
              rw self refl,
            )
      ]
    ]
  where
    row : Address
    row = record {
      id = id;
      subnet_id = subnet;
      address = address;
      device_id = some device;
      source = "SNMP";
      state = "OCCUPIED";
    }

    linked : Address → Address → Address
    linked old a =
        if same a.id old.id
        then record a { device_id = some device; source = "SNMP"; state = "OCCUPIED" }
        else a

-- An event belongs to an enrollment by its id.
pub is_event_of_iff :
    (id : Text) (e : Event) → (is_event_of id e ≡ true) ↔ (e.enrollment_id ≡ some id)
is_event_of_iff id e = ((λ h. there e.enrollment_id h), (λ h. rw h ((same_iff id id).1 refl)))
  where
    there :
        (o : Option Text)
        → (elim o [ none ↦ false | some owner ↦ same owner id ]) ≡ true
        → o ≡ some id
    there none h = absurd (cc)
    there (some owner) h = ap some ((same_iff owner id).0 h)

pub adopted_event :
    (id device credential : Text) (e : Event)
    → (adopted id device credential e).enrollment_id ≢ some id
adopted_event id device credential e h = elim (Bool-cases (is_event_of id e)) [
  | inl k ↦ let none_left : none ≡ some id = rw k at h in cc
  | inr k ↦
      let same_one : e.enrollment_id ≡ some id = rw k at h in
      let t = (is_event_of_iff id e).1 same_one in cc
]
