-- ===== src/Snmp/Credentials.antt =====
-- Stored credentials and what the receiver admits: `decryptStoredCredential`, `snmpAuthProtocol` and
-- `snmpPrivProtocol` of client.ts, and `reloadCredentials` of traps.ts.
pub mod Admitted
use management_app.Base.{
  ℕ, ◌+◌, ◌-◌, ◌≡◌, Bool, true, false, not, ◌&&◌, Option, none, some, List, [], ◌∷◌, ◌++◌, map, any,
  leb, is_empty, if◌then◌else◌, Result, ok, err, ◌>>=◌, ◌>>◌, guard, or_throw,
}
use management_app.Text.{Text, codes, lower}
use management_app.Text.Sets.{same}
use management_app.Snmp.Keyring.{
  Cipher, Json, Keyring, Secret, Envelope, Failure, error, decrypt_credential,
}

pub data Version : Type 0 where
  v2c v3 : Version

abbrev pub same_version : Version → Version → Bool
same_version v2c v2c = true
same_version v3 v3 = true
same_version _ _ = false

-- `StoredCredential`
pub record Stored : Type 0 where
  pub version : Version
  pub username : Option Text
  pub auth_protocol : Option Text
  pub priv_protocol : Option Text
  pub envelope : Envelope

-- What opens a stored credential: the cipher, and the keyring that `loadKeyring` reads or not.
pub record Vault : Type 0 where
  pub aes : Cipher
  pub json : Json
  pub keyring : Result Failure Keyring

unfoldable pub decrypt_stored_credential : Vault → Stored → Result Failure Secret
decrypt_stored_credential v c = do ring ← v.keyring; decrypt_credential v.aes v.json c.envelope ring

-- `secret.field`
unfoldable pub field_of : Text → Secret → Option Text
field_of name [] = none
field_of name ((k, value) ∷ fields) = if same k name then some value else field_of name fields

-- `a ?? b`
abbrev pub or_else : Option Text → Option Text → Option Text
or_else none b = b
or_else (some a) b = some a

-- `toUpperCase` on ASCII letters; any other letter makes the name unknown.
abbrev pub upper : ℕ → ℕ
upper c = if leb b'a' c && leb c b'z' then c - 32 else c

abbrev pub is_one_of : List Text → Text → Bool
is_one_of names t = any (λ u. same u t) names

abbrev pub normalized : Text → Option Text → Text
normalized default none = map upper default
normalized default (some t) = map upper t

-- `protocols` is the table of net-snmp.
unfoldable pub snmp_auth_protocol : (Text → Option ℕ) → Option Text → Result Failure ℕ
snmp_auth_protocol protocols value = do
  let name = normalized (codes "SHA256") value
  guard (is_one_of (codes "SHA1" ∷ codes "SHA256" ∷ codes "SHA384" ∷ codes "SHA512" ∷ []) name)
      (error "SNMP_AUTH_PROTOCOL_UNSUPPORTED")
  or_throw (protocols (if same name (codes "SHA1") then codes "sha" else map lower name))
      (error "SNMP_AUTH_PROTOCOL_UNSUPPORTED")

unfoldable pub snmp_priv_protocol : (Text → Option ℕ) → Option Text → Result Failure ℕ
snmp_priv_protocol protocols value = do
  let name = normalized (codes "AES128") value
  guard (is_one_of (codes "AES128" ∷ codes "AES256" ∷ []) name)
      (error "SNMP_PRIV_PROTOCOL_UNSUPPORTED")
  or_throw (protocols (if same name (codes "AES256") then codes "aes256r" else codes "aes"))
      (error "SNMP_PRIV_PROTOCOL_UNSUPPORTED")

-- The tables of net-snmp.
pub record Protocols : Type 0 where
  pub auth : Text → Option ℕ
  pub priv : Text → Option ℕ

pub record User : Type 0 where
  pub name : Text
  pub auth_protocol : ℕ
  pub auth_key : Option Text
  pub priv_protocol : ℕ
  pub priv_key : Option Text

-- What a receiver's authorizer admits. A community may be `undefined`.
pub record Authorizer : Type 0 where
  pub communities : List (Option Text)
  pub users : List User

abbrev pub same_option : Option Text → Option Text → Bool
same_option none none = true
same_option (some a) (some b) = same a b
same_option _ _ = false

abbrev pub has_user : Text → List User → Bool
has_user name = any (λ (u : User). same u.name name)

abbrev pub username_of : Stored → Secret → Text
username_of c secret = elim (or_else (field_of (codes "username") secret) c.username) [
  | none ↦ []
  | some name ↦ name
]

abbrev pub add_community : Option Text → Authorizer → Authorizer
add_community c a =
    if any (λ d. same_option d c) a.communities
    then a
    else record a { communities = a.communities ++ c ∷ [] }

-- The protocols are looked up before the user is added, and may throw.
unfoldable pub new_user : Protocols → Stored → Secret → Result Failure User
new_user p c secret = do
  guard (not (is_empty (username_of c secret))) (error "SNMP_TRAP_USERNAME_REQUIRED")
  auth ← snmp_auth_protocol p.auth c.auth_protocol
  priv ← snmp_priv_protocol p.priv c.priv_protocol
  ok (record {
    name = username_of c secret;
    auth_protocol = auth;
    auth_key = field_of (codes "authKey") secret;
    priv_protocol = priv;
    priv_key = field_of (codes "privKey") secret;
  })

-- The protocols of a name that is there already are not looked up: it makes no difference here.
unfoldable pub add_user : Protocols → Stored → Secret → Authorizer → Authorizer
add_user p c secret a =
    if has_user (username_of c secret) a.users
    then a
    else elim (new_user p c secret) [ ok u ↦ record a { users = a.users ++ u ∷ [] } | err e ↦ a ]

-- One turn of the loop; what throws is logged and left out.
unfoldable pub admit : Vault → Protocols → Stored → Authorizer → Authorizer
admit v p c a = elim (decrypt_stored_credential v c) [
  | err e ↦ a
  | ok secret ↦ elim c.version [
    | v2c ↦ add_community (field_of (codes "community") secret) a
    | v3 ↦ add_user p c secret a
  ]
]

unfoldable pub admit_all : Vault → Protocols → List Stored → Authorizer → Authorizer
admit_all v p [] a = a
admit_all v p (c ∷ cs) a = admit_all v p cs (admit v p c a)

-- Every old community and user is deleted first.
unfoldable pub reload_credentials : Vault → Protocols → List Stored → Authorizer
unfolding admit_all
reload_credentials v p cs = admit_all v p cs (record { communities = []; users = [] })
