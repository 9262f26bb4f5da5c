-- ===== src/Access/Laws.antt =====
-- What the role tests promise: an action that changes something implies the right to read, and the
-- capabilities shown to the client agree with what the server allows.
use management_app.Base.{
  ◌≡◌, refl, ◌↔◌, String, Bool, true, false, Option, ◌≢◌, List, [], ◌∷◌, arith, any, ◌||◌, ◌&&◌,
}
use management_app.Access.{
  Role, admin, network_operator, systems_operator, auditor, read_only, ScopedAction, read,
  IpamAction, scoped, User, role_eq, has_role, has_some_role, is_admin, has_application_role,
  can_read_scoped, can_manage_physical, can_manage_device, can_use_ipam, is_network_type,
  Capabilities, capabilities,
}

pub role_eq_iff : (a b : Role) → (role_eq a b ≡ true) ↔ (a ≡ b)
role_eq_iff a b = ground arith

module _ {A : Type 0} (p q : A → Bool) where
  any-or : (xs : List A) → any (λ x. p x || q x) xs ≡ (any p xs || any q xs)
  any-or [] = refl
  any-or (x ∷ xs) = ground (arith, any-or xs)

pub any_never {ℓ} : {A : Type ℓ} (xs : List A) → any (λ x. false) xs ≡ false
any_never [] = refl
any_never (x ∷ xs) = any_never xs

-- A test for several roles is a test for one or for the rest.
has_some_role-nil : (u : User) → has_some_role u [] ≡ false
unfolding has_some_role
has_some_role-nil u = any_never u.roles

has_some_role-cons :
    (u : User) (r : Role) (rs : List Role)
    → has_some_role u (r ∷ rs) ≡ (has_role u r || has_some_role u rs)
unfolding has_some_role has_role
has_some_role-cons u r rs = any-or (role_eq r) (λ x. any (λ y. role_eq y x) rs) u.roles

-- With this set every rule is a formula over the five roles.
ruleset role_rules = (has_some_role-cons, has_some_role-nil)

pub can_read_scoped_lem :
    (u : User)
    → can_read_scoped u ≡ (
        has_role u admin
        || (has_role u network_operator
            || (has_role u systems_operator || (has_role u auditor || has_role u read_only))))
unfolding can_read_scoped is_admin
can_read_scoped_lem u = simp role_rules (ground arith)

ipam_readers :
    (u : User)
    → has_some_role u (network_operator ∷ auditor ∷ read_only ∷ [])
      ≡ (has_role u network_operator || (has_role u auditor || has_role u read_only))
ipam_readers u = simp role_rules (ground arith)

can_use_ipam-read :
    (u : User) (a : IpamAction) → can_use_ipam u a ≡ true → can_use_ipam u (scoped read) ≡ true
unfolding can_use_ipam
can_use_ipam-read u (scoped read) h = h
can_use_ipam-read u _ h = ground (arith, ipam_readers u)

pub can_manage_physical_reads : (u : User) → can_manage_physical u read ≡ can_read_scoped u
unfolding can_manage_physical
can_manage_physical_reads u = refl

pub can_manage_physical-read :
    (u : User) (a : ScopedAction) → can_manage_physical u a ≡ true → can_read_scoped u ≡ true
unfolding can_manage_physical is_admin
can_manage_physical-read u read h = h
can_manage_physical-read u _ h = ground (arith, can_read_scoped_lem u)

pub can_manage_device_reads :
    (u : User) (t : Option String) → can_manage_device u read t ≡ can_read_scoped u
unfolding can_manage_device
can_manage_device_reads u t = refl

pub can_manage_device-read :
    (u : User) (a : ScopedAction) (t : Option String)
    → can_manage_device u a t ≡ true
    → can_read_scoped u ≡ true
unfolding can_manage_device is_admin
can_manage_device-read u read t h = h
can_manage_device-read u _ t h = ground (arith, can_read_scoped_lem u)

-- What a user may ask to do: an action on IPAM data, on the physical infrastructure, or on a device
-- of a type.
pub data Request : Type 0 where
  on_ipam : IpamAction → Request
  on_infrastructure : ScopedAction → Request
  on_device : ScopedAction → Option String → Request

-- The rule that the server asks.
abbrev pub allowed : User → Request → Bool
allowed u (on_ipam a) = can_use_ipam u a
allowed u (on_infrastructure a) = can_manage_physical u a
allowed u (on_device a t) = can_manage_device u a t

-- The request to read the same thing.
abbrev pub reading : Request → Request
reading (on_ipam a) = on_ipam (scoped read)
reading (on_infrastructure a) = on_infrastructure read
reading (on_device a t) = on_device read t

-- What the capabilities say of a request that is no reading.
abbrev pub offered : Capabilities → Request → Bool
offered c (on_ipam a) = c.network
offered c (on_infrastructure a) = c.systems
offered c (on_device a t) = c.systems || c.network && is_network_type t

-- Whoever may do anything to IPAM data, to the physical infrastructure or to a device may also
-- read it.
pub allowed_implies_read :
    (u : User) (r : Request) → allowed u r ≡ true → allowed u (reading r) ≡ true
unfolding can_manage_physical can_manage_device
allowed_implies_read u (on_ipam a) h = can_use_ipam-read u a h
allowed_implies_read u (on_infrastructure a) h = can_manage_physical-read u a h
allowed_implies_read u (on_device a t) h = can_manage_device-read u a t h

pub has_application_role_lem :
    (u : User)
    → has_application_role u ≡ (
        has_role u admin
        || (has_role u network_operator
            || (has_role u systems_operator || (has_role u auditor || has_role u read_only))))
unfolding has_application_role
has_application_role_lem u = simp role_rules (ground arith)

no_role_on_ipam :
    (u : User) (a : IpamAction) → has_application_role u ≡ false → can_use_ipam u a ≡ false
unfolding can_use_ipam is_admin
no_role_on_ipam u (scoped read) h = ground (arith, has_application_role_lem u, ipam_readers u)
no_role_on_ipam u _ h = ground (arith, has_application_role_lem u)

-- A user without an application role may do nothing: every rule answers no.
pub no_role_no_access :
    (u : User) (r : Request) → has_application_role u ≡ false → allowed u r ≡ false
unfolding can_manage_physical can_manage_device is_admin
no_role_no_access u (on_ipam a) h = no_role_on_ipam u a h
no_role_no_access u (on_infrastructure read) h =
    ground (arith, has_application_role_lem u, can_read_scoped_lem u)
no_role_no_access u (on_infrastructure _) h = ground (arith, has_application_role_lem u)
no_role_no_access u (on_device read t) h =
    ground (arith, has_application_role_lem u, can_read_scoped_lem u)
no_role_no_access u (on_device _ t) h = ground (arith, has_application_role_lem u)

-- The capabilities shown to the client are those that the server grants: for every request that is
-- no reading, what the capabilities offer is what the rule answers.
pub capabilities_agree :
    (u : User) (r : Request) → r ≢ reading r → offered (capabilities u) r ≡ allowed u r
unfolding capabilities can_use_ipam can_manage_physical can_manage_device is_admin
capabilities_agree u (on_ipam (scoped read)) h = absurd (h refl)
capabilities_agree u (on_ipam _) h = ground arith
capabilities_agree u (on_infrastructure read) h = absurd (h refl)
capabilities_agree u (on_infrastructure _) h = ground arith
capabilities_agree u (on_device read t) h = absurd (h refl)
capabilities_agree u (on_device _ t) h = ground arith
