-- ===== src/Snmp/Traps/Association.antt =====
-- To whom a notification belongs: the middle part of `persist` in traps.ts.
pub mod Laws
use management_app.Base.{
  ℕ, ◌+◌, ◌-◌, ◌/◌, ◌%◌, ◌*◌, String, Bool, true, false, not, ◌&&◌, ◌||◌, Option, none, some, List,
  [], ◌∷◌, ◌++◌, map, filter, find, any, length, is_empty, ltb, leb, eqb, if◌then◌else◌, Result, ok,
  err,
}
use management_app.Text.{Text, codes, lower}
use management_app.Text.Sets.{same}
use management_app.Snmp.Keyring.{Bytes}
use management_app.Snmp.Credentials.{
  Version, v2c, v3, same_version, Stored, Vault, decrypt_stored_credential, field_of, or_else,
}
use management_app.Snmp.Limits.{Settings, allowed}
use management_app.Snmp.Listeners.{
  Interface, SelfTest, is_text, self_test_expected_addresses, snmp_self_test_source_allowed,
}
use management_app.Snmp.Listeners.Sockets.{InterfaceRow, ListenerConfig}
use management_app.Snmp.Traps.Store.{
  Credential, Device, Enrollment, EnrollmentStatus, Value, text, hex, null, other, Varbind,
  EventStatus, pending, processed, unmatched, Event, AuditRow, State, is_pending,
}
use management_app.Snmp.Traps.Notifications.{Host}

-- `version === 'V2C' ? secret.community : secret.username ?? credential.username`
abbrev pub expected : Version → Stored → List (Text × Text) → Option Text
expected v2c c secret = field_of (codes "community") secret
expected v3 c secret = or_else (field_of (codes "username") secret) c.username

abbrev pub opens_as : Vault → Version → Text → Stored → Bool
opens_as vault version identity c = elim (decrypt_stored_credential vault c) [
  | err e ↦ false
  | ok secret ↦ is_text identity (expected version c secret)
]

-- The stored secret is of the version and holds the identity; one that does not open is passed over.
unfoldable pub identifies : Vault → Version → Text → Stored → Bool
identifies vault version identity c =
    same_version c.version version && opens_as vault version identity c

-- `snmpCredentials: { where: { purpose: 'TRAP', enabled: true } }` and the inner loop.
abbrev pub credential_of : Vault → Version → Text → Device → Option Credential
credential_of vault version identity d =
    find (λ (c : Credential). c.is_trap && c.enabled && identifies vault version identity c.stored)
      d.snmp_credentials

-- The outer loop over the devices at the source address.
unfoldable pub match_credential :
    Vault → Version → Text → Text → List Device → Option (Device × Credential)
match_credential vault version identity source [] = none
match_credential vault version identity source (d ∷ ds) =
    let next = match_credential vault version identity source ds in
    if is_text source d.management_ip
    then elim (credential_of vault version identity d) [ some c ↦ some (d, c) | none ↦ next ]
    else next

-- Both values of the status are asked for.
unfoldable pub match_enrollment :
    Vault → ℕ → Version → Text → Text → List Enrollment → Option Enrollment
match_enrollment vault now version identity source = find (λ (e : Enrollment).
    same e.source_address source
    && ltb now e.expires_at
    && identifies vault version identity e.stored)

abbrev pub starts_with : Text → Text → Bool
starts_with [] t = true
starts_with (c ∷ p) [] = false
starts_with (c ∷ p) (d ∷ t) = eqb c d && starts_with p t

-- Interfaces that an agent of the host has reported in the last two minutes.
unfoldable pub fresh_host_interfaces : ℕ → List InterfaceRow → List Interface
fresh_host_interfaces now rows =
    map (λ (r : InterfaceRow). r.interface)
      (filter
        (λ (r : InterfaceRow).
          starts_with (codes "host:") r.interface.instance_id && leb now (r.last_seen_at + 120000))
        rows)

unfoldable pub local_addresses : Host → ℕ → State → List Text
unfolding fresh_host_interfaces self_test_expected_addresses
local_addresses h now s =
    let current = fresh_host_interfaces now s.interfaces in
    let addresses : List Text = elim s.listener_config [
      | none ↦ self_test_expected_addresses true none current
      | some c ↦ self_test_expected_addresses c.listen_all c.selected_interfaces current
    ] in
    filter (λ (t : Text). eqb (h.is_ip t) 4) addresses

abbrev pub is_candidate : ℕ → Text → List Text → Enrollment → Bool
is_candidate now identity addresses e =
    any (λ t. same t e.source_address) addresses
    && same_version e.stored.version v3
    && is_text identity e.stored.username
    && ltb now e.expires_at

abbrev pub only : List Enrollment → Option Enrollment
only (e ∷ []) = some e
only _ = none

-- The enrollment of a self test whose source address was translated: the only one that fits.
unfoldable pub match_self_test : Host → ℕ → Text → State → Option Enrollment
match_self_test h now identity s =
    let addresses = local_addresses h now s in
    if is_empty addresses
    then none
    else only (
        filter (λ (e : Enrollment). opens_as h.vault v3 identity e.stored)
          (filter (is_candidate now identity addresses) s.enrollments))

-- `device`: `matchedDeviceId` and `matchedCredentialId`; `enrolled`: `matchedEnrollment`, with
-- `selfTestSourceMapped`.
pub data Owner : Type 0 where
  device : Device → Credential → Owner
  enrolled : Bool → Enrollment → Owner
  nobody : Owner

unfoldable pub owner_self_test : Host → ℕ → Version → Text → Text → State → Owner
owner_self_test h now v2c identity source s = nobody
owner_self_test h now v3 identity source s =
    if snmp_self_test_source_allowed h.is_ip h.self_test source
    then elim (match_self_test h now identity s) [ some e ↦ enrolled true e | none ↦ nobody ]
    else nobody

unfoldable pub owner_of : Host → ℕ → Version → Text → Text → State → Owner
owner_of h now version identity source s =
    elim (match_credential h.vault version identity source s.devices) [
      | some (d, c) ↦ device d c
      | none ↦ elim (match_enrollment h.vault now version identity source s.enrollments) [
        | some e ↦ enrolled false e
        | none ↦ owner_self_test h now version identity source s
      ]
    ]
