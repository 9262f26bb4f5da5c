-- ===== src/Discovery/Comparison/Tests.antt =====
-- The comparison of two runs at concrete inputs.
use management_app.Base.{◌≡◌, refl, String, Bool, true, false, none, some, List, [], ◌∷◌, map, leb}
use management_app.Base.Sort.{sort}
use management_app.Text.{Text, codes}
use management_app.Discovery.Comparison.{
  Port, number, no_number, Result, Change, differences, appeared, vanished,
  compare_discovery_results, pushed, by_address, put, get, ports,
}

abbrev before : Text → Text → Bool
before [] t = true
before (c ∷ s) [] = false
before (c ∷ s) (d ∷ t) = leb c d

abbrev host : String → Bool → List Port → Result
host a up open_ports = record {
  address = codes a;
  hostname = none;
  icmp_reachable = up;
  open_ports = some open_ports;
}

abbrev yesterday : List Result
yesterday =
    host "10.0.0.1" true []
    ∷ host "10.0.0.2" true (number 22 ∷ number 80 ∷ [])
    ∷ host "10.0.0.3" true []
    ∷ []

abbrev today : List Result
today =
    host "10.0.0.4" true []
    ∷ host "10.0.0.1" false []
    ∷ host "10.0.0.2" true (number 80 ∷ no_number ∷ number 22 ∷ [])
    ∷ host "10.0.0.4" false []
    ∷ []

compare_new :
    (compare_discovery_results before yesterday today).newly_seen
    ≡ appeared (host "10.0.0.4" false []) ∷ []
unfolding compare_discovery_results sort pushed by_address put get
compare_new = refl

compare_changed :
    map (λ c. c.changes) (compare_discovery_results before yesterday today).changed
    ≡ ("icmpReachable" ∷ []) ∷ []
unfolding compare_discovery_results sort pushed by_address put get differences ports
compare_changed = refl

compare_gone :
    (compare_discovery_results before yesterday today).no_longer_reachable
    ≡ vanished (host "10.0.0.3" true []) ∷ []
unfolding compare_discovery_results sort pushed by_address put get
compare_gone = refl

abbrev lost : Change
lost = vanished (host "10.0.0.3" true [])
