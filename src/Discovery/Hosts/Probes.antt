-- ===== src/Discovery/Hosts/Probes.antt =====
-- `run` of discovery.worker.ts checks a subnet by `assertDiscoveryAllowed` and then probes what
-- `hostsFor` lists for the same text: what each probed address is.
use management_app.Base.{ℕ, ◌<◌, ◌^◌, ◌≡◌, refl, arith, Option, List, Elem, All, All-of_Elem, ok}
use management_app.Text.{Text}
use management_app.Discovery.Addresses.{ipv4_value}
use management_app.Discovery.Networks.{Network, Platform, parse_network, Holds}
use management_app.Discovery.Networks.Blocks.{parse_network-IsBlock}
use management_app.Discovery.Policy.{forbidden_cidrs, allowed_items, assert_discovery_allowed}
use management_app.Discovery.Policy.Safety.{
  assert_steps, no_forbidden_address, lies_in_allowed_network,
}
use management_app.Discovery.Hosts.{hosts_for}
use management_app.Discovery.Hosts.Decimal.{ipv4_value-number_to_ipv4}
use management_app.Discovery.Hosts.Listed.{hosts_for_iff}

-- The address that a probed text is.
probed :
    (js : Platform) (cidr : Text) (setting : Option (List (Option Text))) (n : Network)
    (hs : List Text) (host : Text)
    → assert_discovery_allowed js cidr setting ≡ ok n
    → n.version ≡ 4
    → hosts_for js cidr ≡ ok hs
    → Elem host hs
    → (a : ℕ) × (ipv4_value host ≡ ok a) × Holds n a
probed js cidr setting n hs host passed is_four listed m =
    let (_, _, _, parsed, _, _, _, _, _) = assert_steps js cidr setting n passed in
    let (a, usable, e) = (hosts_for_iff js cidr n hs host parsed is_four listed).0 m in
    let block = (parse_network-IsBlock js cidr n parsed).0 in
    let space : n.last < 2 ^ 32 = rw is_four at block.in_space in
    let small : a < 2 ^ 32 = omega (arith, usable.1, space) in
    (a, rw e (ipv4_value-number_to_ipv4 a small), (usable.0, usable.1))

-- No address of a blocked network is ever probed: each text that a run probes is an IPv4 address
-- that lies in none of the blocked IPv4 networks.
pub no_forbidden_probe :
    (js : Platform) (cidr : Text) (setting : Option (List (Option Text))) (n : Network)
    (hs : List Text) (host : Text)
    → assert_discovery_allowed js cidr setting ≡ ok n
    → n.version ≡ 4
    → hosts_for js cidr ≡ ok hs
    → Elem host hs
    → (blocked : Text) (p : Network) → Elem blocked forbidden_cidrs
    → parse_network js blocked ≡ ok p
    → p.version ≡ 4
    → (a : ℕ) × (ipv4_value host ≡ ok a) × (¬ Holds p a)
no_forbidden_probe js cidr setting n hs host passed is_four listed m blocked p k parsed four =
    let (a, read, inside) = probed js cidr setting n hs host passed is_four listed m in
    (
      a,
      read,
      no_forbidden_address js cidr setting n passed blocked p a k parsed (rw (is_four, four) refl)
          inside,
    )

-- Every probed address lies in the network of one item of the allowlist, the same for the whole
-- run.
pub probes_are_allowed :
    (js : Platform) (cidr : Text) (setting : Option (List (Option Text))) (n : Network)
    (hs : List Text)
    → assert_discovery_allowed js cidr setting ≡ ok n
    → n.version ≡ 4
    → hosts_for js cidr ≡ ok hs
    → (item : Text) × (p : Network) × Elem item (allowed_items setting)
      × (parse_network js item ≡ ok p)
      × All (λ host. (a : ℕ) × (ipv4_value host ≡ ok a) × Holds p a) hs
probes_are_allowed js cidr setting n hs passed is_four listed =
    let (item, p, k, parsed, within) = lies_in_allowed_network js cidr setting n passed in
    (
      item,
      p,
      k,
      parsed,
      All-of_Elem _ hs (λ host m.
          let (a, read, inside) = probed js cidr setting n hs host passed is_four listed m in
          (a, read, (omega (arith, within.1, inside.0), omega (arith, within.2, inside.1)))),
    )
