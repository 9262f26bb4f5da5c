-- ===== src/Discovery/Comparison.antt =====
-- discovery-comparison.ts: what has changed between two runs of a discovery.
pub mod Maps
pub mod Lists
mod Tests
use management_app.Base.{
  ℕ, String, Bool, true, false, not, ◌&&◌, ◌||◌, Option, none, some, List, [], ◌∷◌, ◌++◌, map,
  filter, is_empty, eqb, leb, if◌then◌else◌,
}
use management_app.Base.Sort.{insert, sort}
use management_app.Text.{Text}
use management_app.Text.Sets.{same}

-- An element of the stored `openPorts`: a number, or any other JSON value.
pub data Port : Type 0 where
  number : ℕ → Port
  no_number : Port

-- `ComparableDiscoveryResult`; `open_ports` is `none` where the stored value is no array.
pub record Result : Type 0 where
  pub address : Text
  pub hostname : Option Text
  pub icmp_reachable : Bool
  pub open_ports : Option (List Port)

-- `DiscoveryChange`
pub record Change : Type 0 where
  pub address : Text
  pub previous : Option Result
  pub current : Option Result
  pub changes : List String

abbrev pub numbers : List Port → List ℕ
numbers [] = []
numbers (number n ∷ ps) = n ∷ numbers ps
numbers (no_number ∷ ps) = numbers ps

unfoldable pub ports : Option (List Port) → List ℕ
unfolding sort
ports none = []
ports (some ps) = sort leb (numbers ps)

-- The `Map` by address, in the order of insertion: a later result takes the place of an earlier one.
unfoldable pub put : Result → List Result → List Result
put r [] = r ∷ []
put r (x ∷ xs) = if same x.address r.address then r ∷ xs else x ∷ put r xs

unfoldable pub by_address : List Result → List Result → List Result
by_address table [] = table
by_address table (r ∷ rs) = by_address (put r table) rs

-- `map.get(address)`
unfoldable pub get : Text → List Result → Option Result
get a [] = none
get a (x ∷ xs) = if same x.address a then some x else get a xs

abbrev pub same_text : Option Text → Option Text → Bool
same_text none none = true
same_text (some s) (some t) = same s t
same_text _ _ = false

abbrev pub same_bool : Bool → Bool → Bool
same_bool true b = b
same_bool false b = not b

-- Two arrays of numbers have one JSON text exactly if they are the same.
abbrev pub same_numbers : List ℕ → List ℕ → Bool
same_numbers = same

unfoldable pub differences : Result → Result → List String
differences old new =
    (if same_text old.hostname new.hostname then [] else "hostname" ∷ [])
    ++ (if same_bool old.icmp_reachable new.icmp_reachable then [] else "icmpReachable" ∷ [])
    ++ (if same_numbers (ports old.open_ports) (ports new.open_ports) then [] else "openPorts" ∷ [])

pub record Comparison : Type 0 where
  pub newly_seen : List Change
  pub changed : List Change
  pub no_longer_reachable : List Change

abbrev pub appeared : Result → Change
appeared r = record { address = r.address; previous = none; current = some r; changes = [] }

abbrev pub vanished : Result → Change
vanished r = record { address = r.address; previous = some r; current = none; changes = [] }

abbrev pub differs : Result → Result → Change
differs old new = record {
  address = new.address;
  previous = some old;
  current = some new;
  changes = differences old new;
}

-- What a turn of the first loop pushes to `newlySeen` and to `changed`, and of the second to
-- `noLongerReachable`.
abbrev pub newly : List Result → Result → Option Change
newly olds r = elim (get r.address olds) [ none ↦ some (appeared r) | some old ↦ none ]

abbrev pub altered : List Result → Result → Option Change
altered olds r = elim (get r.address olds) [
  | none ↦ none
  | some old ↦ if is_empty (differences old r) then none else some (differs old r)
]

abbrev pub gone : List Result → Result → Option Change
gone news r = elim (get r.address news) [ none ↦ some (vanished r) | some new ↦ none ]

-- A loop over a map that pushes to a list.
unfoldable pub pushed : (Result → Option Change) → List Result → List Change
pushed turn [] = []
pushed turn (r ∷ rs) =
    let rest = pushed turn rs in elim (turn r) [ none ↦ rest | some c ↦ c ∷ rest ]

-- `not_after` is `localeCompare(…, { numeric: true }) <= 0` of the addresses, of which nothing is used.
unfoldable pub compare_discovery_results :
    (Text → Text → Bool) → List Result → List Result → Comparison
compare_discovery_results not_after previous current =
    let olds = by_address [] previous in
    let news = by_address [] current in
    let sorted = sort (λ (a : Change) b. not_after a.address b.address) in
    record {
      newly_seen = sorted (pushed (newly olds) news);
      changed = sorted (pushed (altered olds) news);
      no_longer_reachable = sorted (pushed (gone news) olds);
    }
