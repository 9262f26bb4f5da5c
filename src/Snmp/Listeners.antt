-- ===== src/Snmp/Listeners.antt =====
-- On which addresses the trap receiver listens, and when it accepts a translated source for its
-- self test: the functions at the top of traps.ts, `performRefresh`, `bind` and `closeReceivers`.
pub mod Sockets
pub mod Chosen
use Prim.Native.Nat.{Ordering}
use management_app.Base.{
  ℕ, ◌-◌, ◌*◌, Bool, true, false, not, ◌&&◌, ◌||◌, Option, none, some, List, [], ◌∷◌, map, filter,
  any, all, flat_map, is_empty, ltb, eqb, if◌then◌else◌,
}
use management_app.Base.Sort.{insert, sort}
use management_app.Text.{Text, codes, trim, split}
use management_app.Text.Sets.{same, set_of}

-- `SnmpRuntimeInterface`
pub record Interface : Type 0 where
  pub instance_id : Text
  pub name : Text
  pub address : Text
  pub internal : Bool

-- An address in the result of Node's `networkInterfaces()`.
pub record OsAddress : Type 0 where
  pub family : Text
  pub address : Text
  pub internal : Bool

abbrev pub is_ipv4_family : Text → Bool
is_ipv4_family f = same f (codes "IPv4") || same f (codes "4")

-- `localeCompare` by name, then by address. The collation of the host is the parameter.
abbrev pub not_after : (Text → Text → Ordering) → Interface → Interface → Bool
not_after locale x y = elim (locale x.name y.name) [
  | Ordering.lt ↦ true
  | Ordering.gt ↦ false
  | Ordering.eq ↦ elim (locale x.address y.address) [ Ordering.gt ↦ false | _ ↦ true ]
]

abbrev pub interfaces_of : Text → Text × List OsAddress → List Interface
interfaces_of instance (name, addresses) =
    map
      (λ (o : OsAddress). record {
        instance_id = instance;
        name = name;
        address = o.address;
        internal = o.internal;
      })
      (filter (λ (o : OsAddress). is_ipv4_family o.family) addresses)

unfoldable pub runtime_ipv4_interfaces :
    (Text → Text → Ordering) → Text → List (Text × List OsAddress) → List Interface
unfolding sort
runtime_ipv4_interfaces locale instance found =
    sort (not_after locale) (flat_map (interfaces_of instance) found)

-- An element of the stored `selectedInterfaces`: any JSON value. A field that is no string is `none`.
pub data Candidate : Type 0 where
  not_an_object : Candidate
  fields : Option Text → Option Text → Option Text → Candidate

-- The stored value; `none` where it is no array.
abbrev pub Selection : Type 0
Selection = Option (List Candidate)

abbrev pub is_text : Text → Option Text → Bool
is_text t none = false
is_text t (some u) = same u t

abbrev pub selects : Interface → Candidate → Bool
selects i not_an_object = false
selects i (fields instance name address) =
    is_text i.instance_id instance && is_text i.name name && is_text i.address address

unfoldable pub selected_addresses : Selection → List Interface → List Text
selected_addresses none current = []
selected_addresses (some candidates) current = set_of [] (
    map (λ (i : Interface). i.address)
      (filter (λ (i : Interface). any (selects i) candidates) current))

-- `process.env.SNMP_TRAP_ADDRESS?.trim() || '0.0.0.0'`
unfoldable pub any_address : Option Text → Text
unfolding trim
any_address none = codes "0.0.0.0"
any_address (some t) = if is_empty (trim t) then codes "0.0.0.0" else trim t

unfoldable pub configured_listener_addresses :
    Option Text → Bool → Selection → List Interface → List Text
unfolding any_address selected_addresses
configured_listener_addresses trap_address listen_all selected current =
    if listen_all then any_address trap_address ∷ [] else selected_addresses selected current

unfoldable pub self_test_expected_addresses : Bool → Selection → List Interface → List Text
unfolding selected_addresses
self_test_expected_addresses listen_all selected current =
    if listen_all
    then set_of [] (map (λ (i : Interface). i.address) current)
    else selected_addresses selected current

-- The environment of the self test.
pub record SelfTest : Type 0 where
  pub enabled : Option Text
  pub proxy_sources : Option Text
  pub allow_translated : Option Text

abbrev pub or_empty : Option Text → Text
or_empty none = []
or_empty (some t) = t

unfoldable pub snmp_self_test_proxy_sources : (Text → ℕ) → SelfTest → List Text
unfolding split trim
snmp_self_test_proxy_sources is_ip env =
    if is_text (codes "true") env.enabled
    then set_of [] (
        filter (λ (t : Text). eqb (is_ip t) 4) (map trim (split b',' (or_empty env.proxy_sources))))
    else []

unfoldable pub snmp_self_test_source_allowed : (Text → ℕ) → SelfTest → Text → Bool
unfolding snmp_self_test_proxy_sources
snmp_self_test_source_allowed is_ip env source =
    is_text (codes "true") env.enabled
    && eqb (is_ip source) 4
    && (any (λ t. same t source) (snmp_self_test_proxy_sources is_ip env)
        || is_text (codes "true") env.allow_translated)
