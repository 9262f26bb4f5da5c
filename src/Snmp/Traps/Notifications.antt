-- ===== src/Snmp/Traps/Notifications.antt =====
-- What a notification says: `classifyTrap`, `isSupportedNotificationPdu`, `normalizedValue` and the
-- first lines of `persist` in traps.ts.
use management_app.Base.{
  ℕ, String, Bool, true, false, not, ◌||◌, Option, none, some, List, [], ◌∷◌, is_empty, eqb,
  if◌then◌else◌,
}
use management_app.Text.{Text, codes}
use management_app.Text.Sets.{same}
use management_app.Snmp.Keyring.{Bytes}
use management_app.Snmp.Credentials.{Version, v2c, v3, Vault, or_else}
use management_app.Snmp.Limits.{Settings}
use management_app.Snmp.Listeners.{SelfTest}
use management_app.Snmp.Traps.Store.{Value, text, hex, null, other, Varbind}

-- What the worker has from its environment and its packages: the PDU types of net-snmp, SHA-256,
-- the length of `JSON.stringify(varbinds)` in UTF-8, `net.isIP`, the keyring and the settings.
pub record Host : Type 0 where
  pub trap_v2 : ℕ
  pub inform_request : ℕ
  pub sha256 : Text → Text
  pub json_size : List Varbind → ℕ
  pub is_ip : Text → ℕ
  pub vault : Vault
  pub settings : Settings
  pub self_test : SelfTest

pub data RawValue : Type 0 where
  buffer : Bytes → RawValue
  bigint : Text → RawValue
  string : Text → RawValue
  undefined : RawValue
  rest : RawValue

abbrev pub normalized_value : RawValue → Value
normalized_value (buffer bytes) = hex bytes
normalized_value (bigint digits) = text digits
normalized_value (string t) = text t
normalized_value undefined = null
normalized_value rest = other

pub record RawVarbind : Type 0 where
  pub oid : Text
  pub type : ℕ
  pub value : RawValue

-- `pdu.user`: an object with a name, or any other value with its text.
pub data UserField : Type 0 where
  named : Text → UserField
  plain : Text → UserField

pub data EngineId : Type 0 where
  engine_text : Text → EngineId
  engine_bytes : Bytes → EngineId
  no_engine : EngineId

-- The notification of net-snmp. `pdu_type` is `Number(pdu.type)`, if that is a natural number;
-- `varbinds` is `none` where it is no array.
pub record Notification : Type 0 where
  pub pdu_type : Option ℕ
  pub source_address : Text
  pub source_port : ℕ
  pub is_version3 : Bool
  pub community : Option Text
  pub user : Option UserField
  pub security_name : Option Text
  pub engine_id : EngineId
  pub request_id : Option Text
  pub varbinds : Option (List RawVarbind)

-- `TRAP_CATEGORIES`
abbrev pub trap_categories : List (Text × String × String)
trap_categories =
    (codes "1.3.6.1.6.3.1.1.5.1", "COLD_START", "WARNING")
    ∷ (codes "1.3.6.1.6.3.1.1.5.2", "WARM_START", "INFO")
    ∷ (codes "1.3.6.1.6.3.1.1.5.3", "LINK_DOWN", "WARNING")
    ∷ (codes "1.3.6.1.6.3.1.1.5.4", "LINK_UP", "INFO")
    ∷ (codes "1.3.6.1.6.3.1.1.5.5", "AUTHENTICATION_FAILURE", "CRITICAL")
    ∷ []

unfoldable pub category_in : List (Text × String × String) → Text → String × String
category_in [] oid = ("VENDOR", "INFO")
category_in ((known, category, severity) ∷ others) oid =
    if same known oid then (category, severity) else category_in others oid

unfoldable pub classify_trap : Option Text → String × String
unfolding category_in
classify_trap none = ("VENDOR", "INFO")
classify_trap (some oid) = category_in trap_categories oid

abbrev pub is_type : ℕ → Option ℕ → Bool
is_type t none = false
is_type t (some u) = eqb u t

abbrev pub is_supported_notification_pdu : Host → Option ℕ → Bool
is_supported_notification_pdu h type = is_type h.trap_v2 type || is_type h.inform_request type

abbrev pub user_name : Option UserField → Option Text
user_name none = none
user_name (some (named t)) = some t
user_name (some (plain t)) = some t

-- `pdu.community ?? pdu.user?.name ?? pdu.user ?? pdu.securityName ?? ''`
unfoldable pub raw_identity : Notification → Text
raw_identity n = elim (or_else n.community (or_else (user_name n.user) n.security_name)) [
  | none ↦ []
  | some t ↦ t
]

abbrev pub is_user : Option UserField → Bool
is_user none = false
is_user (some (named t)) = true
is_user (some (plain t)) = not (is_empty t)

abbrev pub is_filled : Option Text → Bool
is_filled none = false
is_filled (some t) = not (is_empty t)

unfoldable pub version_of : Notification → Version
version_of n = if n.is_version3 || is_user n.user || is_filled n.security_name then v3 else v2c
