-- ===== src/Snmp/Contracts.antt =====
-- packages/snmp-core/src/contracts.ts, with `setVarbinds` of client.ts and `publicErrorCode` of log.ts.
use management_app.Base.{
  ℕ, zero, suc, Bool, true, false, not, ◌&&◌, ◌||◌, Option, none, some, List, [], ◌∷◌, ◌++◌, map,
  all, is_empty, length, leb, ltb, eqb, if◌then◌else◌, Result, ok, err, ◌>>=◌, ◌>>◌, guard,
  or_throw,
}
use management_app.Text.{Text, codes, trim, lower, is_digit}
use management_app.Text.Sets.{same}

-- An error: its `code`, if it has one, and its message.
pub record Failure : Type 0 where
  pub code : Option Text
  pub message : Text

-- `new Error(text)`, and the same with a code.
abbrev pub plain : Text → Failure
plain t = record { code = none; message = t }

abbrev pub coded : Text → Failure
coded t = record { code = some t; message = t }

abbrev pub is_hex : ℕ → Bool
is_hex c = is_digit c || leb b'a' (lower c) && leb (lower c) b'f'

abbrev pub is_version_digit : ℕ → Bool
is_version_digit c = leb b'1' c && leb c b'5'

abbrev pub is_variant_digit : ℕ → Bool
is_variant_digit c = eqb c b'8' || eqb c b'9' || eqb (lower c) b'a' || eqb (lower c) b'b'

abbrev pub hexes : ℕ → List (ℕ → Bool)
hexes zero = []
hexes (suc n) = is_hex ∷ hexes n

abbrev pub is_dash : ℕ → Bool
is_dash c = eqb c b'-'

-- The regular expression of `snmpPayload`, one test for each place.
abbrev pub uuid_places : List (ℕ → Bool)
uuid_places =
    hexes 8
    ++ is_dash
      ∷ (hexes 4
          ++ is_dash
            ∷ is_version_digit
            ∷ (hexes 3 ++ is_dash ∷ is_variant_digit ∷ (hexes 3 ++ is_dash ∷ hexes 12)))

unfoldable pub fits : List (ℕ → Bool) → Text → Bool
fits [] [] = true
fits [] (c ∷ t) = false
fits (p ∷ ps) [] = false
fits (p ∷ ps) (c ∷ t) = p c && fits ps t

-- The payload is the id itself.
unfoldable pub snmp_payload : Text → Result Failure Text
unfolding fits
snmp_payload id = do guard (fits uuid_places id) (plain (codes "SNMP_RECORD_ID_INVALID")); ok id

-- A field of the stored parameters: a text, a Boolean, or anything else.
pub data Field : Type 0 where
  text : Text → Field
  boolean : Bool → Field
  no_field : Field

-- The stored parameters, of which the template's fields are read; `none` where they are no object.
pub record Parameters : Type 0 where
  pub operation : Field
  pub interface_id : Field
  pub admin_up : Field
  pub sys_name : Field
  pub sys_location : Field

pub data SetTemplate : Type 0 where
  interface_admin_status : Text → Bool → SetTemplate
  system_identity : Option Text → Option Text → SetTemplate

abbrev pub invalid : Failure
invalid = plain (codes "SNMP_SET_TEMPLATE_INVALID")

abbrev pub as_text : Field → Option Text
as_text (text t) = some t
as_text _ = none

abbrev pub as_boolean : Field → Option Bool
as_boolean (boolean b) = some b
as_boolean _ = none

-- `value.trim()`, left out where it is empty.
abbrev pub trimmed : Field → Option Text
trimmed (text t) = if is_empty (trim t) then none else some (trim t)
trimmed _ = none

abbrev pub size : Option Text → ℕ
size none = 0
size (some t) = length t

abbrev pub is_none : Option Text → Bool
is_none none = true
is_none (some t) = false

unfoldable pub interface_template : Parameters → Result Failure SetTemplate
unfolding snmp_payload
interface_template p = do
  id ← or_throw (as_text p.interface_id) invalid
  up ← or_throw (as_boolean p.admin_up) invalid
  payload ← snmp_payload id
  ok (interface_admin_status id up)

unfoldable pub system_template : Option Text → Option Text → Result Failure SetTemplate
system_template name location = do
  guard (not (is_none name && is_none location)) invalid
  guard (not (ltb 255 (size name) || ltb 255 (size location))) invalid
  ok (system_identity name location)

abbrev pub is_operation : Text → Field → Bool
is_operation t (text u) = same u t
is_operation t _ = false

unfoldable pub validate_set_template : Option Parameters → Result Failure SetTemplate
unfolding interface_template system_template trim
validate_set_template none = err invalid
validate_set_template (some p) =
    if is_operation (codes "INTERFACE_ADMIN_STATUS") p.operation
    then interface_template p
    else if is_operation (codes "SYSTEM_IDENTITY") p.operation
    then system_template (trimmed p.sys_name) (trimmed p.sys_location)
    else err (plain (codes "SNMP_SET_OPERATION_FORBIDDEN"))

-- `SNMP_OIDS`
abbrev pub sys_name_oid : Text
sys_name_oid = codes "1.3.6.1.2.1.1.5.0"

abbrev pub sys_location_oid : Text
sys_location_oid = codes "1.3.6.1.2.1.1.6.0"

abbrev pub if_admin_status_oid : Text
if_admin_status_oid = codes "1.3.6.1.2.1.2.2.1.7"

-- `${SNMP_OIDS.ifAdminStatus}.${ifIndex}`, with the index as its text.
abbrev pub admin_status_oid : Text → Text
admin_status_oid index = if_admin_status_oid ++ b'.' ∷ index

-- A varbind without its type; a value is the text that `String` makes of it.
pub record SetVarbind : Type 0 where
  pub oid : Text
  pub value : Text

abbrev pub optional : Text → Option Text → List SetVarbind
optional oid none = []
optional oid (some t) = record { oid = oid; value = t } ∷ []

-- `index` is the text of `ifIndex`; `none` where it is missing or 0.
unfoldable pub set_varbinds : SetTemplate → Option Text → Result Failure (List SetVarbind)
set_varbinds (interface_admin_status id up) none =
    err (coded (codes "SNMP_INTERFACE_INDEX_UNAVAILABLE"))
set_varbinds (interface_admin_status id up) (some index) =
    ok (record { oid = admin_status_oid index; value = if up then codes "1" else codes "2" } ∷ [])
set_varbinds (system_identity name location) index =
    ok (optional sys_name_oid name ++ optional sys_location_oid location)

-- The text `part` stands somewhere in the other.
abbrev pub is_prefix : Text → Text → Bool
is_prefix [] t = true
is_prefix (c ∷ p) [] = false
is_prefix (c ∷ p) (d ∷ t) = eqb c d && is_prefix p t

unfoldable pub mentions : Text → Text → Bool
mentions part [] = is_empty part
mentions part (c ∷ t) = is_prefix part (c ∷ t) || mentions part t

abbrev pub is_code_unit : ℕ → Bool
is_code_unit c = leb b'A' c && leb c b'Z' || is_digit c || eqb c b'_'

-- `/^SNMP_[A-Z0-9_]+$/`
unfoldable pub is_public_code : Text → Bool
is_public_code (a ∷ b ∷ c ∷ d ∷ e ∷ f ∷ t) =
    same (a ∷ b ∷ c ∷ d ∷ e ∷ []) (codes "SNMP_") && all is_code_unit (f ∷ t)
is_public_code _ = false

abbrev pub code_of_message : Text → Text
code_of_message message =
    let m = map lower message in
    if mentions (codes "timeout") m
    then codes "SNMP_TIMEOUT"
    else if mentions (codes "authorization") m
        || mentions (codes "authentication") m
        || mentions (codes "unknown user") m
        || mentions (codes "wrong digest") m
    then codes "SNMP_AUTHENTICATION_FAILED"
    else codes "SNMP_EXECUTION_FAILED"

unfoldable pub public_error_code : Failure → Text
unfolding mentions is_public_code
public_error_code f = elim f.code [
  | none ↦ code_of_message f.message
  | some code ↦ if is_public_code code then code else code_of_message f.message
]
