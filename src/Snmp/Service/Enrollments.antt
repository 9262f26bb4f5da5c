-- ===== src/Snmp/Service/Enrollments.antt =====
-- Enrollments of snmp.service.ts: traps are expected from an address before its device is known.
use management_app.Base.{
  ℕ, ◌+◌, ◌*◌, Bool, not, ◌&&◌, none, [], ◌∷◌, ◌++◌, map, filter, any, if◌then◌else◌, Result, ok,
  ◌>>=◌, ◌>>◌, guard,
}
use management_app.Base.HttpError.{bad_request, not_found}
use management_app.Text.{Text}
use management_app.Text.Sets.{same}
use management_app.Snmp.Keyring.{Envelope, encrypt_credential}
use management_app.Snmp.Credentials.{v2c, v3}
use management_app.Snmp.Traps.Store.{Enrollment, waiting}
use management_app.Snmp.Service.{Options, taken, assert_secret_available}
use management_app.Snmp.Service.Secrets.{
  Fault, http, thrown, Vault, SecretDto, Crypto, credential_secret, stored_of,
}

-- 24 hours.
abbrev pub lifetime : ℕ
lifetime = 24 * 60 * 60 * 1000

abbrev pub is_at : Text → Text → Enrollment → Bool
is_at site address e = same e.site_id site && same e.source_address address

abbrev pub options_for : SecretDto → Options
options_for dto = record {
  skip_credential_id = none;
  skip_enrollment_id = none;
  v3_trap_username = elim dto.version [ v3 ↦ dto.username | v2c ↦ none ];
}

abbrev pub enrolled : Text → Text → Text → ℕ → SecretDto → Envelope → Enrollment
enrolled id site address now dto e = record {
  id = id;
  site_id = site;
  source_address = address;
  stored = stored_of dto e;
  status = waiting;
  expires_at = now + lifetime;
  first_seen_at = none;
  last_seen_at = none;
  trap_count = 0;
  latest_trap_oid = none;
}

-- `is_ipv4` is `net.isIP(address) === 4`, and `has_device` whether the site has a device at the address.
unfoldable pub create_enrollment :
    Crypto
    → Result Fault (Unit {0})
    → Bool
    → Bool
    → Bool
    → Text
    → Text
    → Text
    → ℕ
    → SecretDto
    → Vault
    → Result Fault Vault
unfolding credential_secret
create_enrollment k permitted is_ipv4 has_device compatibility_sha1 id site address now dto v = do
  permitted
  guard is_ipv4 (http (bad_request "SNMP_ENROLLMENT_IP_INVALID"))
  secret ← credential_secret dto compatibility_sha1
  guard (not has_device) (taken "SNMP_ENROLLMENT_DEVICE_EXISTS")
  guard (not (any (is_at site address) v.enrollments)) (taken "SNMP_ENROLLMENT_ALREADY_EXISTS")
  ring ← assert_secret_available k secret (options_for dto) v
  e ← thrown (encrypt_credential k.aes k.json k.random secret ring)
  ok (record v { enrollments = v.enrollments ++ enrolled id site address now dto e ∷ [] })

abbrev pub has_id : Text → Enrollment → Bool
has_id id e = same e.id id

unfoldable pub renew_enrollment : Result Fault (Unit {0}) → Text → ℕ → Vault → Result Fault Vault
renew_enrollment permitted id now v = do
  guard (any (has_id id) v.enrollments) (http (not_found "Enrollment não encontrado"))
  permitted
  ok (record v {
    enrollments =
        map
          (λ (e : Enrollment). if has_id id e then record e { expires_at = now + lifetime } else e)
          v.enrollments;
  })

-- Without the events of the enrollment, which go back to having no owner.
unfoldable pub delete_enrollment : Result Fault (Unit {0}) → Text → Vault → Result Fault Vault
delete_enrollment permitted id v = do
  guard (any (has_id id) v.enrollments) (http (not_found "Enrollment não encontrado"))
  permitted
  ok (record v { enrollments = filter (λ e. not (has_id id e)) v.enrollments })
