-- ===== src/Snmp/Service/Rotation/Tests.antt =====
-- A credential and the access to a filer are rotated from the key "k1" to "k2".
use management_app.Base.{◌≡◌, refl, sym, ◌∙◌, inl, inr, true, none, [], ◌∷◌, ok}
use management_app.Text.{Text, codes}
use management_app.Snmp.Keyring.{
  Bytes, Keyring, Envelope, key_of, rewrap_credential, rewrapped, decrypt_credential,
}
use management_app.Snmp.Credentials.{v2c}
use management_app.Snmp.Service.Secrets.{Credential, Crypto, read}
use management_app.Snmp.Service.Rotation.{
  rotate_rows, Integration, Safe, rotate_credentials, of_credentials, of_integrations,
}
use management_app.Snmp.Service.Rotation.Loop.{IsOne}
use management_app.Snmp.Service.Rotation.Tables.{
  IsKept, integration_row, Holds, integration, rotate_credentials-IsKept,
  rotate_credentials-decrypt,
}
use management_app.Snmp.Toy.{aes, json, next_ring, random, sealed}

abbrev toy : Crypto
toy = record { aes = aes; json = json; keyring = ok next_ring; random = random }

abbrev filer : Integration
filer = record { id = codes "n1"; envelope = sealed }

abbrev router : Credential
router = record {
  id = codes "c1";
  device_id = codes "d1";
  purpose = read;
  label = none;
  stored = record {
    version = v2c;
    username = none;
    auth_protocol = none;
    priv_protocol = none;
    envelope = sealed;
  };
  enabled = true;
  last_test_status = none;
}

abbrev safe : Safe
safe = record {
  vault = record { credentials = router ∷ []; enrollments = [] };
  integrations = filer ∷ [];
}

abbrev vectors : Text → Bytes
vectors id = 4 ∷ []

abbrev resealed : Envelope
resealed = record sealed { wrap_iv = 4 ∷ []; wrap_auth_tag = 8 ∷ []; key_id = codes "k2" }

-- Both rows are rotated.
rotated : rotate_credentials toy vectors safe ≡ (
  record {
    vault = record {
      credentials = record router { stored = record router.stored { envelope = resealed } } ∷ [];
      enrollments = [];
    };
    integrations = record filer { envelope = resealed } ∷ [];
  },
  ok 2,
)
unfolding rotate_credentials rotate_rows rewrap_credential rewrapped key_of
rotated = refl

IsOne-credential : IsOne of_credentials safe.vault.credentials
IsOne-credential c d (inl p) (inl q) e = p ∙ sym q
IsOne-credential c d (inl p) (inr nothing) e = absurd nothing
IsOne-credential c d (inr nothing) n e = absurd nothing

IsOne-filer : IsOne of_integrations safe.integrations
IsOne-filer c d (inl p) (inl q) e = p ∙ sym q
IsOne-filer c d (inl p) (inr nothing) e = absurd nothing
IsOne-filer c d (inr nothing) n e = absurd nothing

rotate_credentials-IsKept_example :
    IsKept toy next_ring vectors safe (rotate_credentials toy vectors safe).0
rotate_credentials-IsKept_example =
    rotate_credentials-IsKept toy next_ring vectors safe IsOne-credential (λ c d m. absurd m)
      IsOne-filer refl

-- Without the old key.
abbrev new_ring : Keyring
new_ring = record { active_key_id = codes "k2"; keys = (codes "k2", 8 ∷ []) ∷ [] }

succeeds : (rotate_credentials toy vectors safe).1 ≡ ok 2
succeeds = rw rotated refl

same_key : key_of (codes "k2") new_ring.keys ≡ key_of (codes "k2") next_ring.keys
unfolding key_of
same_key = refl

is_held : Holds (rotate_credentials toy vectors safe).0 (integration_row (codes "n1")) resealed
is_held = rw rotated (integration (record filer { envelope = resealed }) (inl refl))

rotate_credentials-decrypt_example :
    (resealed.key_id ≡ codes "k2")
    × ((f : Envelope) × Holds safe (integration_row (codes "n1")) f
        × (decrypt_credential aes json resealed new_ring ≡ decrypt_credential aes json f next_ring))
rotate_credentials-decrypt_example =
    rotate_credentials-decrypt toy next_ring vectors safe IsOne-credential (λ c d m. absurd m)
      IsOne-filer 2 new_ring (integration_row (codes "n1")) resealed refl succeeds same_key is_held
