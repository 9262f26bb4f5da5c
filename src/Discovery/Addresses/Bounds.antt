-- ===== src/Discovery/Addresses/Bounds.antt =====
-- An IPv4 address is below 2 ^ 32, an IPv6 address below 2 ^ 128.
use native.Mathlib.Nat.{pow-le-pow_right, mul-le-mul_right, mul-suc}
use management_app.Base.{
  ℕ, suc, ◌+◌, ◌-◌, ◌*◌, ◌^◌, ◌≤◌, ◌<◌, ◌≡◌, arith, Bool, true, ◌&&◌, ◌||◌, List, [], ◌∷◌, ◌++◌,
  all, length, map, ok, bind-eq-ok, guard_bind, eqb, leb,
}
use management_app.Bits.{pow-add}
use management_app.Text.{Text, split, split_double, lower, decimal}
use management_app.Discovery.Addresses.{
  is_octet, reduce_parts, ipv4_value, is_hex_digit, hex_digit_value, hexadecimal, is_group,
  ipv6_value, plain, expand, left_side, right_side, zeros,
}

-- A value of `n` bits with one more part of `k` bits has `n + k` bits.
pub shift_bound : (n k v p : ℕ) → v < 2 ^ n → p < 2 ^ k → v * 2 ^ k + p < 2 ^ (n + k)
shift_bound n k v p hv hp = omega (arith, pow-add n k, mul-le-mul_right (2 ^ k) hv)

reduce_parts_bound :
    (k : ℕ) (number : Text → ℕ) (test : Text → Bool)
    → ((part : Text) → test part ≡ true → number part < 2 ^ k)
    → (parts : List Text) (n v : ℕ) → v < 2 ^ n
    → all test parts ≡ true
    → reduce_parts k number v parts < 2 ^ (n + k * length parts)
unfolding reduce_parts
reduce_parts_bound k number test small [] n v hv h = let e : n + k * 0 ≡ n = omega arith in rw e hv
reduce_parts_bound k number test small (part ∷ parts) n v hv h =
    let e : n + k * suc (length parts) ≡ n + k + k * length parts =
      omega (arith, mul-suc k (length parts)) in
    rw e (
      reduce_parts_bound k number test small parts (n + k) (v * 2 ^ k + number part)
        (shift_bound n k v (number part) hv (small part (ground arith))) (ground arith))

octet_bound : (part : Text) → is_octet part ≡ true → decimal part < 2 ^ 8
octet_bound part h = ground arith

hexadecimal_bound :
    (t : Text) (n v : ℕ)
    → v < 2 ^ n
    → all is_hex_digit t ≡ true
    → hexadecimal v t < 2 ^ (n + 4 * length t)
unfolding hexadecimal
hexadecimal_bound [] n v hv h = let e : n + 4 * 0 ≡ n = omega arith in rw e hv
hexadecimal_bound (c ∷ t) n v hv h =
    let e : n + 4 * suc (length t) ≡ n + 4 + 4 * length t = omega arith in
    rw e (
      hexadecimal_bound t (n + 4) (v * 16 + hex_digit_value c)
        (shift_bound n 4 v (hex_digit_value c) hv (ground arith)) (ground arith))

group_bound : (part : Text) → is_group part ≡ true → hexadecimal 0 part < 2 ^ 16
group_bound part h =
    let short : 0 + 4 * length part ≤ 16 = ground arith in
    omega (
      arith,
      hexadecimal_bound part 0 0 (omega arith) (ground arith),
      pow-le-pow_right {n = 2} (omega arith) short,
    )

pub ipv4_value_bound : (t : Text) (v : ℕ) → ipv4_value t ≡ ok v → v < 2 ^ 32
unfolding ipv4_value
ipv4_value_bound t v h =
    let parts = split b'.' t in
    let (good, e) =
      guard_bind (eqb (length parts) 4 && all is_octet parts) (plain "IPv4 inválido") _ h in
    let four : length parts ≡ 4 = ground arith in
    let bound =
      reduce_parts_bound 8 decimal is_octet octet_bound parts 0 0 (omega arith) (ground arith) in
    let value : reduce_parts 8 decimal 0 parts ≡ v = cc in rw (← value) (rw four at bound)

pub ipv6_value_bound : (t : Text) (v : ℕ) → ipv6_value t ≡ ok v → v < 2 ^ 128
unfolding ipv6_value
ipv6_value_bound t v h =
    let sides = split_double b':' (map lower t) in
    let (_, h1) = guard_bind (leb (length sides) 2) (plain "IPv6 inválido") _ h in
    let (left, _, h2) = bind-eq-ok (expand (left_side sides)) _ h1 in
    let (right, _, h3) = bind-eq-ok (expand (right_side sides)) _ h2 in
    let missing = 8 - (length left + length right) in
    let (_, h4) =
      guard_bind (leb (length left + length right) 8 && (leb 2 (length sides) || eqb missing 0))
        (plain "IPv6 inválido") _ h3 in
    let parts = left ++ zeros missing ++ right in
    let (good, e) =
      guard_bind (eqb (length parts) 8 && all is_group parts) (plain "IPv6 inválido") _ h4 in
    let eight : length parts ≡ 8 = ground arith in
    let bound =
      reduce_parts_bound 16 (hexadecimal 0) is_group group_bound parts 0 0 (omega arith)
        (ground arith) in
    let value : reduce_parts 16 (hexadecimal 0) 0 parts ≡ v = cc in rw (← value) (rw eight at bound)
