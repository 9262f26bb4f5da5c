-- ===== src/Discovery/Policy.antt =====
-- `normalizeAllowedCidrs`, `assertDiscoveryAllowed` and `normalizeDiscoveryPorts` of
-- discovery-policy.ts. A setting that is read from the database is any JSON value: `none` stands
-- for one that is no array, and within an array for an item that is no text or no integer.
pub mod Safety
pub mod Ports
use management_app.Base.{
  ℕ, Bool, true, false, not, ◌&&◌, Option, none, some, List, [], ◌∷◌, map, filter, any, is_empty,
  leb, length, Result, ok, err, ◌>>=◌, ◌>>◌, guard, if◌then◌else◌,
}
use management_app.Base.Int.{pos, leb_ℤ}
use management_app.Base.Number.{Number, integer, other}
use management_app.Collections.Ascending.{ascending_set}
use management_app.Text.{Text, codes, trim}
use management_app.Text.Sets.{set_of}
use management_app.Discovery.Addresses.{Failure, policy}
use management_app.Discovery.Networks.{Network, Platform, parse_network, overlaps, contained}

abbrev pub default_allowed_cidrs : List Text
default_allowed_cidrs =
    map codes ("10.0.0.0/8" ∷ "172.16.0.0/12" ∷ "192.168.0.0/16" ∷ "fc00::/7" ∷ [])

abbrev pub max_discovery_ports : ℕ
max_discovery_ports = 64

abbrev pub forbidden_cidrs : List Text
forbidden_cidrs = map codes (
    "0.0.0.0/8" ∷ "127.0.0.0/8" ∷ "169.254.0.0/16" ∷ "192.0.0.0/24" ∷ "192.0.2.0/24"
    ∷ "198.18.0.0/15" ∷ "198.51.100.0/24" ∷ "203.0.113.0/24" ∷ "224.0.0.0/4" ∷ "240.0.0.0/4"
    ∷ "::/128" ∷ "::1/128" ∷ "fe80::/10" ∷ "ff00::/8" ∷ [])

-- `value.filter((item) => typeof item === 'string')`
abbrev pub texts : List (Option Text) → List Text
texts [] = []
texts (none ∷ items) = texts items
texts (some t ∷ items) = t ∷ texts items

abbrev pub allowed_items : Option (List (Option Text)) → List Text
allowed_items none = default_allowed_cidrs
allowed_items (some items) = texts items

-- `cidrs.map(parseNetwork)`: the first text that is refused ends it.
unfoldable pub parse_all : Platform → List Text → Result Failure (List Network)
parse_all js [] = ok []
parse_all js (t ∷ ts) = do n ← parse_network js t; ns ← parse_all js ts; ok (n ∷ ns)

abbrev pub trimmed_items : Option (List (Option Text)) → List Text
trimmed_items value = filter (λ t. not (is_empty t)) (map trim (allowed_items value))

unfoldable pub normalize_allowed_cidrs :
    Platform → Option (List (Option Text)) → Result Failure (List Text)
normalize_allowed_cidrs js value = do
  networks ← parse_all js (trimmed_items value)
  ok (set_of [] (map (λ (n : Network). n.cidr) networks))

unfoldable pub assert_discovery_allowed :
    Platform → Text → Option (List (Option Text)) → Result Failure Network
assert_discovery_allowed js target_cidr allowed_input = do
  target ← parse_network js target_cidr
  blocked ← parse_all js forbidden_cidrs
  guard (not (any (overlaps target) blocked)) (policy "DISCOVERY_TARGET_FORBIDDEN")
  cidrs ← normalize_allowed_cidrs js allowed_input
  allowed ← parse_all js cidrs
  guard (any (contained target) allowed) (policy "DISCOVERY_TARGET_NOT_ALLOWED")
  ok target

-- `Number.isInteger(port) && port >= 1 && port <= 65535`
abbrev pub ports_of : List Number → List ℕ
ports_of [] = []
ports_of (integer (pos n) ∷ xs) =
    let rest = ports_of xs in if leb 1 n && leb n 65535 then n ∷ rest else rest
ports_of (_ ∷ xs) = ports_of xs

-- An item that is no number is `other`.
unfoldable pub normalize_discovery_ports : Option (List Number) → Result Failure (List ℕ)
normalize_discovery_ports none = ok []
normalize_discovery_ports (some items) = do
  let ports = ascending_set (ports_of items)
  guard (leb (length ports) max_discovery_ports) (policy "DISCOVERY_PORT_LIMIT")
  ok ports
