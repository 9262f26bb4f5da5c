-- ===== src/Discovery/Hosts/Limit.antt =====
-- The limit of 4096 hosts: which networks `hostsFor` lists at all.
use native.Mathlib.Nat.{pow-le-pow_right}
use management_app.Base.{
  ℕ, suc, ◌+◌, ◌-◌, ◌^◌, ◌≤◌, ◌<◌, ◌≡◌, refl, ap, [], ◌∷◌, ◌∙◌, arith, true, false, ◌&&◌, some,
  List, map, all, length, eqb, leb, if◌then◌else◌, ok, err, guard_bind, guard-if,
}
use management_app.Text.{Text, trim, split}
use management_app.Discovery.Addresses.{is_octet, ipv4_value, plain}
use management_app.Discovery.Networks.{
  Network, Platform, second_number, prefix_within, parse_network,
}
use management_app.Discovery.Networks.Blocks.{parse_network_lem, parse_network-IsBlock}
use management_app.Discovery.Hosts.{
  number_to_ipv4, first_host, host_count, range, hosts_for, max_discovery_hosts,
}
use management_app.Discovery.Hosts.Listed.{
  address, network_address_lem, broadcast_address_lem, length-range,
}

is_dotted :
    (t : Text) (v : ℕ)
    → ipv4_value t ≡ ok v
    → (eqb (length (split b'.' t)) 4 && all is_octet (split b'.' t)) ≡ true
unfolding ipv4_value
is_dotted t v h =
    (guard_bind (eqb (length (split b'.' t)) 4 && all is_octet (split b'.' t))
      (plain "IPv4 inválido") _ h).0

module _ (js : Platform) (cidr : Text) (n : Network) (parsed : parse_network js cidr ≡ ok n)
    (is_four : n.version ≡ 4) where
  block_size : suc n.last ≡ n.first + 2 ^ (32 - n.prefix)
  block_size =
      let b = (parse_network-IsBlock js cidr n parsed).0 in
      let first = rw is_four at b.first_is in
      let last = rw is_four at b.last_is in omega (arith, first, last)

  -- The guards that come before the limit pass.
  past_guards : hosts_for js cidr ≡ (
      if leb (host_count (address js cidr n parsed is_four) n.prefix) max_discovery_hosts
      then ok (
          map number_to_ipv4 (
            range
              (first_host (address js cidr n parsed is_four) n.prefix)
              (host_count (address js cidr n parsed is_four) n.prefix)))
      else err (plain "Discovery limitado a 4096 hosts"))
  unfolding hosts_for
  past_guards =
      let (value, here, _, _, prefix, _) = parse_network_lem js cidr n parsed in
      let dotted = is_dotted (address js cidr n parsed is_four) value (rw is_four at here) in
      let given : prefix_within 32 (second_number js (split b'/' (trim cidr))) ≡ some n.prefix =
        rw is_four at prefix in
      rw (dotted, given)
        (guard-if (leb (host_count (address js cidr n parsed is_four) n.prefix) max_discovery_hosts)
          (plain "Discovery limitado a 4096 hosts")
          (ok (
            map number_to_ipv4 (
              range (first_host (address js cidr n parsed is_four) n.prefix)
                (host_count (address js cidr n parsed is_four) n.prefix)))))

  count_small :
      20 ≤ n.prefix → host_count (address js cidr n parsed is_four) n.prefix ≤ max_discovery_hosts
  count_small h =
      rw
        (
          broadcast_address_lem js cidr n parsed is_four,
          network_address_lem js cidr n parsed is_four,
        )
        (ground (
          arith,
          block_size,
          pow-le-pow_right {n = 2} (omega arith) {i = 32 - n.prefix} {j = 12} (omega arith),
        ))

  count_large :
      n.prefix < 20 → max_discovery_hosts < host_count (address js cidr n parsed is_four) n.prefix
  count_large h =
      rw
        (
          broadcast_address_lem js cidr n parsed is_four,
          network_address_lem js cidr n parsed is_four,
        )
        (ground (
          arith,
          block_size,
          pow-le-pow_right {n = 2} (omega arith) {i = 13} {j = 32 - n.prefix} (omega arith),
        ))

length-map : {A B : Type 0} (f : A → B) (xs : List A) → length (map f xs) ≡ length xs
length-map f [] = refl
length-map f (x ∷ xs) = ap suc (length-map f xs)

-- Every IPv4 network of prefix length 20 or more is listed, with 4096 hosts at most.
pub hosts_for_total :
    (js : Platform) (cidr : Text) (n : Network)
    → parse_network js cidr ≡ ok n
    → n.version ≡ 4
    → 20 ≤ n.prefix
    → (hs : List Text) × (hosts_for js cidr ≡ ok hs) × (length hs ≤ 4096)
hosts_for_total js cidr n parsed is_four h =
    let addresses =
      range (first_host (address js cidr n parsed is_four) n.prefix)
        (host_count (address js cidr n parsed is_four) n.prefix) in
    let small = count_small js cidr n parsed is_four h in
    let test : leb (host_count (address js cidr n parsed is_four) n.prefix) max_discovery_hosts
        ≡ true =
      ground (arith, small) in
    let size =
      length-map number_to_ipv4 addresses
      ∙ length-range (first_host (address js cidr n parsed is_four) n.prefix)
          (host_count (address js cidr n parsed is_four) n.prefix) in
    (
      map number_to_ipv4 addresses,
      rw (past_guards js cidr n parsed is_four, test) refl,
      omega (arith, size, small),
    )

-- Every IPv4 network of a shorter prefix has too many hosts and is refused.
pub hosts_for_refused :
    (js : Platform) (cidr : Text) (n : Network)
    → parse_network js cidr ≡ ok n
    → n.version ≡ 4
    → n.prefix < 20
    → hosts_for js cidr ≡ err (plain "Discovery limitado a 4096 hosts")
hosts_for_refused js cidr n parsed is_four h =
    let large = count_large js cidr n parsed is_four h in
    let test : leb (host_count (address js cidr n parsed is_four) n.prefix) max_discovery_hosts
        ≡ false =
      ground (arith, large) in
    rw (past_guards js cidr n parsed is_four, test) refl
