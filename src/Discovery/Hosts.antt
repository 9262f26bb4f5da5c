-- ===== src/Discovery/Hosts.antt =====
-- discovery-network.ts: the addresses of an IPv4 network that a run probes. The bit operations of
-- JavaScript are on 32 bits; with `>>> 0` behind them their result is unsigned.
pub mod Words
pub mod Decimal
pub mod Listed
pub mod Limit
pub mod Probes
use Prim.Native.Nat.{bit_and, bit_or}
use management_app.Base.{
  ℕ, zero, suc, ◌+◌, ◌-◌, ◌*◌, ◌/◌, ◌%◌, ◌^◌, Bool, not, ◌&&◌, Option, List, [], ◌∷◌, ◌++◌, map,
  all, leb, ltb, eqb, length, if◌then◌else◌, Result, ok, err, ◌>>=◌, ◌>>◌, guard, or_throw,
}
use management_app.Text.{Text, trim, split, decimal}
use management_app.Discovery.Addresses.{Failure, plain, is_octet, reduce_parts}
use management_app.Discovery.Networks.{Platform, first_piece, second_number, prefix_within}

abbrev pub max_discovery_hosts : ℕ
max_discovery_hosts = 4096

-- `Number(part)` is the decimal value: the parts have been tested to be digits.
unfoldable pub ipv4_to_number : Text → ℕ
ipv4_to_number ip = reduce_parts 8 decimal 0 (split b'.' ip) % 2 ^ 32

-- A number below 1000 as `join` writes it.
unfoldable pub octet_text : ℕ → Text
octet_text v =
    if ltb v 10
    then (b'0' + v) ∷ []
    else if ltb v 100
    then (b'0' + v / 10) ∷ (b'0' + v % 10) ∷ []
    else (b'0' + v / 100) ∷ (b'0' + v / 10 % 10) ∷ (b'0' + v % 10) ∷ []

-- `value >>> n`
abbrev pub shift_right : ℕ → ℕ → ℕ
shift_right v n = v % 2 ^ 32 / 2 ^ n

-- `[left, …right].join('.')`
abbrev pub dotted : Text → Text → Text
dotted left right = left ++ (b'.' ∷ right)

unfoldable pub number_to_ipv4 : ℕ → Text
number_to_ipv4 v = dotted (octet_text (shift_right v 24)) (
    dotted (octet_text (bit_and (shift_right v 16) 255))
      (dotted (octet_text (bit_and (shift_right v 8) 255)) (octet_text (bit_and (v % 2 ^ 32) 255))))

-- `(0xffffffff << (32 - bits)) >>> 0`, and no bit for a prefix of length 0.
abbrev pub mask32 : ℕ → ℕ
mask32 bits = if eqb bits 0 then 0 else 0xffffffff * 2 ^ (32 - bits) % 2 ^ 32

-- `~mask >>> 0`
abbrev pub complement32 : ℕ → ℕ
complement32 mask = 2 ^ 32 - 1 - mask

abbrev pub network_address : Text → ℕ → ℕ
network_address address bits = bit_and (ipv4_to_number address) (mask32 bits)

abbrev pub broadcast_address : Text → ℕ → ℕ
broadcast_address address bits = bit_or (network_address address bits) (complement32 (mask32 bits))

abbrev pub first_host : Text → ℕ → ℕ
first_host address bits =
    if leb 31 bits then network_address address bits else network_address address bits + 1

abbrev pub last_host : Text → ℕ → ℕ
last_host address bits =
    if leb 31 bits then broadcast_address address bits else broadcast_address address bits - 1

abbrev pub host_count : Text → ℕ → ℕ
host_count address bits =
    if leb (first_host address bits) (last_host address bits)
    then last_host address bits - first_host address bits + 1
    else 0

-- `Array.from({ length: count }, (_, index) => first + index)`
abbrev pub range : ℕ → ℕ → List ℕ
range first zero = []
range first (suc count) = first ∷ range (first + 1) count

unfoldable pub hosts_for : Platform → Text → Result Failure (List Text)
hosts_for js cidr = do
  let pieces = split b'/' (trim cidr)
  let address = first_piece pieces
  let octets = split b'.' address
  guard (eqb (length octets) 4 && all is_octet octets) (plain "CIDR IPv4 inválido")
  bits ← or_throw (prefix_within 32 (second_number js pieces)) (plain "CIDR IPv4 inválido")
  guard (leb (host_count address bits) max_discovery_hosts)
      (plain "Discovery limitado a 4096 hosts")
  ok (map number_to_ipv4 (range (first_host address bits) (host_count address bits)))
