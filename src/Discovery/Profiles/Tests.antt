-- ===== src/Discovery/Profiles/Tests.antt =====
-- Profiles at concrete inputs.
use management_app.Base.{◌≡◌, refl, true, false, none, some, [], ◌∷◌, map, ok, err}
use management_app.Base.Int.{pos}
use management_app.Base.Number.{integer, other}
use management_app.Collections.Ascending.{ascending_set, ascending, add_all, add}
use management_app.Collections.Texts.{unique}
use management_app.Discovery.Addresses.{policy}
use management_app.Discovery.Policy.{normalize_discovery_ports}
use management_app.Discovery.Profiles.{
  Choice, Profile, Run, discovery_profiles, discovery_profile_ids, resolve_discovery_profile,
}

abbrev custom : Choice
custom = record {
  methods = "TCP" ∷ "UDP" ∷ "TCP" ∷ [];
  tcp_ports = some (integer (pos 8080) ∷ other ∷ integer (pos 22) ∷ []);
  reverse_dns = false;
}

abbrev defaults : Choice
defaults = record { methods = "TCP" ∷ []; tcp_ports = none; reverse_dns = true }

abbrev run : Run
run = record { methods = "TCP" ∷ []; tcp_ports = 22 ∷ 8080 ∷ []; reverse_dns = false }

profiles_have_the_ids :
    map (λ (p : Profile). p.id) (discovery_profiles defaults) ≡ discovery_profile_ids
profiles_have_the_ids = refl

chosen_by_the_caller : resolve_discovery_profile "custom" custom defaults ≡ ok run
unfolding resolve_discovery_profile normalize_discovery_ports ascending_set ascending add_all add
    unique
chosen_by_the_caller = refl

defaults_without_ports :
    resolve_discovery_profile "defaults" custom defaults ≡ err (policy "TCP_PORT_REQUIRED")
unfolding resolve_discovery_profile normalize_discovery_ports ascending_set ascending add_all add
    unique
defaults_without_ports = refl

unknown_profile :
    resolve_discovery_profile "all" custom defaults ≡ err (policy "DISCOVERY_PROFILE_INVALID")
unfolding resolve_discovery_profile
unknown_profile = refl
