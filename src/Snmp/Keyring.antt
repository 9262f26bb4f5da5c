-- ===== src/Snmp/Keyring.antt =====
-- packages/snmp-core/src/crypto.ts: stored secrets are sealed by a key of their own, which is sealed
-- by a key of the keyring. Random bytes are arguments.
pub mod Rewrap
use management_app.Base.{
  ℕ, ◌≡◌, String, Bool, true, false, Option, none, some, List, [], ◌∷◌, eqb, is_empty, length,
  if◌then◌else◌, Result, ok, err, ◌>>=◌, ◌>>◌, guard, or_throw,
}
use management_app.Text.{Text}
use management_app.Text.Sets.{same}

abbrev pub Bytes : Type 0
Bytes = List ℕ

-- AES-256-GCM of Node's crypto module. `seal` answers the ciphertext and the tag; `unseal` fails
-- where the tag does not fit. The one law is what the documentation promises.
pub record Cipher : Type 0 where
  pub seal : Bytes → Bytes → Bytes → Bytes × Bytes
  pub unseal : Bytes → Bytes → Bytes → Bytes → Option Bytes
  pub unseal-seal :
      (key iv plain : Bytes)
      → unseal key iv (seal key iv plain).0 (seal key iv plain).1 ≡ some plain

-- `secret`: an object of texts.
abbrev pub Secret : Type 0
Secret = List (Text × Text)

-- `JSON.stringify` and `JSON.parse` on such objects, as UTF-8.
pub record Json : Type 0 where
  pub stringify : Secret → Bytes
  pub parse : Bytes → Option Secret
  pub parse-stringify : (s : Secret) → parse (stringify s) ≡ some s

pub record Keyring : Type 0 where
  pub active_key_id : Text
  pub keys : List (Text × Bytes)

pub record Envelope : Type 0 where
  pub ciphertext : Bytes
  pub iv : Bytes
  pub auth_tag : Bytes
  pub wrapped_dek : Bytes
  pub wrap_iv : Bytes
  pub wrap_auth_tag : Bytes
  pub key_id : Text

-- An error's message.
pub data Failure : Type 0 where
  error : String → Failure

-- `keyring.keys[id]`
unfoldable pub key_of : Text → List (Text × Bytes) → Option Bytes
key_of id [] = none
key_of id ((k, key) ∷ keys) = if same k id then some key else key_of id keys

-- What `JSON.parse` finds in the keyring file: an object may lack a text `activeKeyId` or an object
-- `keys`, whose values may be no texts.
pub data KeyringFile : Type 0 where
  no_json : KeyringFile
  no_object : KeyringFile
  object : Option Text → Option (List (Text × Option Text)) → KeyringFile

abbrev pub invalid : Failure
invalid = error "SNMP_KEYRING_INVALID"

-- `base64` is `Buffer.from(value, 'base64')`.
unfoldable pub decode_key : (Text → Bytes) → Text → Result Failure Bytes
decode_key base64 value = do
  guard (eqb (length (base64 value)) 32) (error "SNMP_KEYRING_KEY_INVALID")
  ok (base64 value)

unfoldable pub decode_keys :
    (Text → Bytes) → List (Text × Option Text) → Result Failure (List (Text × Bytes))
unfolding decode_key
decode_keys base64 [] = ok []
decode_keys base64 ((id, key) ∷ entries) = do
  text ← or_throw key invalid
  decoded ← decode_key base64 text
  rest ← decode_keys base64 entries
  ok ((id, decoded) ∷ rest)

unfoldable pub parse_keyring : (Text → Bytes) → KeyringFile → Result Failure Keyring
unfolding decode_keys key_of
parse_keyring base64 no_json = err invalid
parse_keyring base64 no_object = err invalid
parse_keyring base64 (object active entries) = do
  id ← or_throw active invalid
  found ← or_throw entries invalid
  keys ← decode_keys base64 found
  present ← or_throw (key_of id keys) (error "SNMP_KEYRING_ACTIVE_KEY_MISSING")
  ok (record { active_key_id = id; keys = keys })

-- The random bytes of a call: the data key and the two initialisation vectors.
pub record Random : Type 0 where
  pub dek : Bytes
  pub iv : Bytes
  pub wrap_iv : Bytes

abbrev pub key_missing : Failure
key_missing = error "SNMP_KEYRING_KEY_MISSING"

-- `decryptWithKey`, whose `final` throws where the tag does not fit.
abbrev pub decrypt_with_key : Cipher → Bytes → Bytes → Bytes → Bytes → Result Failure Bytes
decrypt_with_key aes ciphertext iv tag key =
    or_throw (aes.unseal key iv ciphertext tag)
      (error "Unsupported state or unable to authenticate data")

-- Without the active key, `createCipheriv` is given no key and throws.
unfoldable pub encrypt_credential :
    Cipher → Json → Random → Secret → Keyring → Result Failure Envelope
encrypt_credential aes json random secret ring = do
  key ← or_throw (key_of ring.active_key_id ring.keys) (error "Invalid key")
  let payload = aes.seal random.dek random.iv (json.stringify secret)
  let wrapped = aes.seal key random.wrap_iv random.dek
  ok (record {
    ciphertext = payload.0;
    iv = random.iv;
    auth_tag = payload.1;
    wrapped_dek = wrapped.0;
    wrap_iv = random.wrap_iv;
    wrap_auth_tag = wrapped.1;
    key_id = ring.active_key_id;
  })

unfoldable pub decrypt_credential : Cipher → Json → Envelope → Keyring → Result Failure Secret
decrypt_credential aes json e ring = do
  kek ← or_throw (key_of e.key_id ring.keys) key_missing
  dek ← decrypt_with_key aes e.wrapped_dek e.wrap_iv e.wrap_auth_tag kek
  plain ← decrypt_with_key aes e.ciphertext e.iv e.auth_tag dek
  or_throw (json.parse plain) (error "Unexpected token in JSON")

-- The data key is sealed again by the active key; `iv` is the new vector.
unfoldable pub rewrapped : Cipher → Bytes → Envelope → Keyring → Result Failure Envelope
rewrapped aes iv e ring = do
  old ← or_throw (key_of e.key_id ring.keys) key_missing
  dek ← decrypt_with_key aes e.wrapped_dek e.wrap_iv e.wrap_auth_tag old
  key ← or_throw (key_of ring.active_key_id ring.keys) (error "Invalid key")
  let wrapped = aes.seal key iv dek
  ok (record e {
    wrapped_dek = wrapped.0;
    wrap_iv = iv;
    wrap_auth_tag = wrapped.1;
    key_id = ring.active_key_id;
  })

unfoldable pub rewrap_credential : Cipher → Bytes → Envelope → Keyring → Result Failure Envelope
unfolding rewrapped
rewrap_credential aes iv e ring =
    if same e.key_id ring.active_key_id then ok e else rewrapped aes iv e ring
