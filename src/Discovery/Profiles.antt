-- ===== src/Discovery/Profiles.antt =====
-- discovery-profiles.ts: what a run of a discovery asks, from the profile that was chosen for it.
pub mod Runs
mod Tests
use management_app.Base.{
  ℕ, String, Bool, true, false, not, ◌&&◌, ◌||◌, Option, none, some, List, [], ◌∷◌, ◌++◌, map,
  filter, find, is_empty, ◌==◌, if◌then◌else◌, Result, ok, err, ◌>>=◌, ◌>>◌, guard, or_throw,
}
use management_app.Base.Int.{pos}
use management_app.Base.Number.{Number, integer}
use management_app.Collections.Texts.{includes, unique}
use management_app.Discovery.Addresses.{Failure, policy, plain}
use management_app.Discovery.Policy.{normalize_discovery_ports}

-- `DISCOVERY_PROFILE_IDS`
abbrev pub discovery_profile_ids : List String
discovery_profile_ids = "defaults" ∷ "icmp-only" ∷ "web" ∷ "network" ∷ "custom" ∷ []

-- `tcp_ports` is `none` where the value is no array.
pub record Choice : Type 0 where
  pub methods : List String
  pub tcp_ports : Option (List Number)
  pub reverse_dns : Bool

-- `DiscoveryProfile`, without the description.
pub record Profile : Type 0 where
  pub id : String
  pub name : String
  pub choice : Choice

abbrev pub numbers : List ℕ → Option (List Number)
numbers ps = some (map (λ p. integer (pos p)) ps)

-- `FIXED_PROFILES`
abbrev pub icmp_only : Choice
icmp_only = record { methods = "ICMP" ∷ []; tcp_ports = numbers []; reverse_dns = true }

abbrev pub web : Choice
web = record {
  methods = "ICMP" ∷ "TCP" ∷ [];
  tcp_ports = numbers (80 ∷ 443 ∷ []);
  reverse_dns = true;
}

abbrev pub network : Choice
network = record {
  methods = "ICMP" ∷ "TCP" ∷ [];
  tcp_ports = numbers (22 ∷ 23 ∷ 53 ∷ 80 ∷ 443 ∷ 830 ∷ 3389 ∷ []);
  reverse_dns = true;
}

abbrev pub discovery_profiles : Choice → List Profile
discovery_profiles defaults =
    record { id = "defaults"; name = "Predefinição da organização"; choice = defaults }
    ∷ record { id = "icmp-only"; name = "ICMP apenas"; choice = icmp_only }
    ∷ record { id = "web"; name = "Serviços web"; choice = web }
    ∷ record { id = "network"; name = "Infraestrutura de rede"; choice = network }
    ∷ record { id = "custom"; name = "Personalizado"; choice = defaults }
    ∷ []

-- What a run does.
pub record Run : Type 0 where
  pub methods : List String
  pub tcp_ports : List ℕ
  pub reverse_dns : Bool

abbrev pub is_method : String → Bool
is_method m = m == "ICMP" || m == "TCP"

-- The part of `resolveDiscoveryProfile` that follows the choice of the values.
unfoldable pub run_of : Choice → Result Failure Run
run_of c = do
  let methods = filter is_method (unique c.methods)
  ports ← normalize_discovery_ports c.tcp_ports
  guard (not (is_empty methods)) (policy "DISCOVERY_METHOD_REQUIRED")
  guard (not (includes "TCP" methods && is_empty ports)) (policy "TCP_PORT_REQUIRED")
  ok (record { methods = methods; tcp_ports = ports; reverse_dns = c.reverse_dns })

-- `profile` is found wherever the id is one of the list.
unfoldable pub resolve_discovery_profile : String → Choice → Choice → Result Failure Run
unfolding run_of
resolve_discovery_profile id custom defaults = do
  guard (includes id discovery_profile_ids) (policy "DISCOVERY_PROFILE_INVALID")
  profile ←
      or_throw (find (λ (p : Profile). p.id == id) (discovery_profiles defaults))
        (plain "Cannot read properties of undefined")
  run_of (if id == "custom" then custom else profile.choice)
