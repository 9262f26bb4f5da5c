-- ===== src/Snmp/Polls/Drifts.antt =====
-- `replaceDrifts` of poll.ts: where what a device reports differs from what is documented.
pub mod Spec
pub mod Kept
use management_app.Base.{
  ℕ, Bool, true, false, not, ◌&&◌, ◌||◌, Option, none, some, List, [], ◌∷◌, ◌++◌, filter, flat_map,
  is_empty, if◌then◌else◌,
}
use management_app.Base.Number.{Number, integer, other}
use management_app.Base.Int.{leb_ℤ}
use management_app.Text.{Text, codes}
use management_app.Text.Sets.{same}

-- A row of `DeviceInterface`; `none` is null.
pub record Documented : Type 0 where
  pub id : Text
  pub name : Text
  pub port_key : Option Text
  pub description : Option Text
  pub admin_up : Option Bool
  pub mac_address : Option Text
  pub speed_mbps : Option Number

-- An interface of `PollResult`; `none` is undefined.
pub record Observed : Type 0 where
  pub if_index : ℕ
  pub name : Option Text
  pub description : Option Text
  pub admin_up : Option Bool
  pub mac_address : Option Text
  pub speed_mbps : Option Number

pub record Poll : Type 0 where
  pub sys_name : Option Text
  pub interfaces : List Observed

pub data Field : Type 0 where
  hostname description admin_up mac_address speed_mbps : Field

pub data Value : Type 0 where
  text : Text → Value
  flag : Bool → Value
  number : Number → Value

pub data DriftStatus : Type 0 where
  pending accepted ignored : DriftStatus

-- A row of `SnmpDrift`.
pub record Drift : Type 0 where
  pub device : Text
  pub interface_id : Option Text
  pub snapshot : Text
  pub field : Field
  pub documented_value : Value
  pub observed_value : Value
  pub status : DriftStatus

-- `byName`, an array of its entries: the last one of a key counts. `lower` is `toLowerCase`.
abbrev pub names_of : Documented → List Text
names_of d =
    filter (λ t. not (is_empty t)) (d.name ∷ elim d.port_key [ none ↦ [] | some k ↦ k ∷ [] ])

abbrev pub entries_of : (Text → Text) → Documented → List Text → List (Text × Documented)
entries_of lower d [] = []
entries_of lower d (t ∷ ts) = (lower t, d) ∷ entries_of lower d ts

abbrev pub by_name : (Text → Text) → List Documented → List (Text × Documented)
by_name lower = flat_map (λ d. entries_of lower d (names_of d))

unfoldable pub get : Text → List (Text × Documented) → Option Documented
get k [] = none
get k ((j, d) ∷ entries) = elim (get k entries) [
  | some later ↦ some later
  | none ↦ if same j k then some d else none
]

-- `text && byName.get(text.toLowerCase())`
abbrev pub named : (Text → Text) → Option Text → List (Text × Documented) → Option Documented
named lower none entries = none
named lower (some t) entries = if is_empty t then none else get (lower t) entries

unfoldable pub documented_of :
    (Text → Text) → List (Text × Documented) → Observed → Option Documented
documented_of lower entries o = elim (named lower o.name entries) [
  | some d ↦ some d
  | none ↦ named lower o.description entries
]

-- `!==` on two values of a field; a number that is `other` is `NaN` or no integer.
abbrev pub same_flag : Bool → Bool → Bool
same_flag true b = b
same_flag false b = not b

abbrev pub same_number : Number → Number → Bool
same_number (integer m) (integer n) = leb_ℤ m n && leb_ℤ n m
same_number _ _ = false

abbrev pub texts_differ : Option Text → Option Text → Option (Value × Value)
texts_differ (some s) (some t) = if same s t then none else some (text s, text t)
texts_differ _ _ = none

abbrev pub flags_differ : Option Bool → Option Bool → Option (Value × Value)
flags_differ (some a) (some b) = if same_flag a b then none else some (flag a, flag b)
flags_differ _ _ = none

abbrev pub numbers_differ : Option Number → Option Number → Option (Value × Value)
numbers_differ (some m) (some n) = if same_number m n then none else some (number m, number n)
numbers_differ _ _ = none

-- The documented and the observed value of a field, where both are there and differ.
unfoldable pub difference : Documented → Observed → Field → Option (Value × Value)
difference d o hostname = none
difference d o description = texts_differ d.description o.description
difference d o admin_up = flags_differ d.admin_up o.admin_up
difference d o mac_address = texts_differ d.mac_address o.mac_address
difference d o speed_mbps = numbers_differ d.speed_mbps o.speed_mbps

abbrev pub drift : Text → Option Text → Text → Field → Value × Value → Drift
drift device interface_id snapshot field (documented_value, observed_value) = record {
  device = device;
  interface_id = interface_id;
  snapshot = snapshot;
  field = field;
  documented_value = documented_value;
  observed_value = observed_value;
  status = pending;
}

-- The first test: both names are there and not empty, and differ.
abbrev pub is_given : Option Text → Bool
is_given none = false
is_given (some t) = not (is_empty t)

abbrev pub host_difference : Option Text → Option Text → Option (Value × Value)
host_difference documented observed =
    if is_given documented && is_given observed then texts_differ documented observed else none

abbrev pub made : Option (Value × Value) → (Value × Value → Drift) → List Drift
made none make = []
made (some v) make = make v ∷ []

-- The inner loop.
abbrev pub fields : List Field
fields = description ∷ admin_up ∷ mac_address ∷ speed_mbps ∷ []

unfoldable pub drifts_in : Text → Text → Documented → Observed → List Field → List Drift
unfolding difference
drifts_in device snapshot d o =
    flat_map (λ f. made (difference d o f) (drift device (some d.id) snapshot f))

unfoldable pub drifts_of :
    Text → Text → (Text → Text) → List (Text × Documented) → Observed → List Drift
unfolding drifts_in documented_of
drifts_of device snapshot lower entries o = elim (documented_of lower entries o) [
  | none ↦ []
  | some d ↦ drifts_in device snapshot d o fields
]

unfoldable pub drifts_found :
    Text → Text → Option Text → (Text → Text) → List (Text × Documented) → Poll → List Drift
unfolding drifts_of
drifts_found device snapshot name lower entries poll =
    made (host_difference name poll.sys_name) (drift device none snapshot hostname)
    ++ flat_map (drifts_of device snapshot lower entries) poll.interfaces

abbrev pub is_pending : DriftStatus → Bool
is_pending pending = true
is_pending _ = false

abbrev pub is_open_of : Text → Drift → Bool
is_open_of device r = same r.device device && is_pending r.status

unfoldable pub replace_drifts :
    Text
    → Text
    → Option Text
    → (Text → Text)
    → List (Text × Documented)
    → Poll
    → List Drift
    → List Drift
unfolding drifts_found
replace_drifts device snapshot name lower entries poll table =
    filter (λ r. not (is_open_of device r)) table
    ++ drifts_found device snapshot name lower entries poll
