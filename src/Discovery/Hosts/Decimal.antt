-- ===== src/Discovery/Hosts/Decimal.antt =====
-- The text that `numberToIpv4` writes is read back as the same address.
use native.Mathlib.Nat.{mod-eq_of_lt}
use management_app.Base.{
  ℕ, ◌+◌, ◌*◌, ◌/◌, ◌%◌, ◌^◌, ◌<◌, ◌≡◌, refl, ap, arith, Bool, true, not, [], ◌∷◌, ◌++◌, all, eqb,
  if◌then◌else◌, ok,
}
use management_app.Text.{Text, split, decimal}
use management_app.Discovery.Addresses.{is_octet, reduce_parts, ipv4_value}
use management_app.Discovery.Hosts.{octet_text, number_to_ipv4, dotted}
use management_app.Discovery.Hosts.Words.{agree, eq-of_agree, low_byte}

abbrev has_no : ℕ → Text → Bool
has_no sep = all (λ c. not (eqb c sep))

split_last : (sep : ℕ) (p : Text) → has_no sep p ≡ true → split sep p ≡ p ∷ []
unfolding split
split_last sep [] h = refl
split_last sep (c ∷ p) h = ground (arith, split_last sep p (ground arith))

split-append :
    (sep : ℕ) (p rest : Text)
    → has_no sep p ≡ true
    → split sep (p ++ sep ∷ rest) ≡ p ∷ split sep rest
unfolding split
split-append sep [] rest h = ground arith
split-append sep (c ∷ p) rest h = ground (arith, split-append sep p rest (ground arith))

-- What is needed of a part that `numberToIpv4` writes: it is an octet, has the value that it is
-- written for, and holds no full stop.
octet_text_lem :
    (v : ℕ)
    → v < 256
    → (is_octet (octet_text v) ≡ true)
      × (decimal (octet_text v) ≡ v)
      × (has_no b'.' (octet_text v) ≡ true)
unfolding agree decimal octet_text
octet_text_lem v h = (
  ground (arith, eq-of_agree (λ v. if is_octet (octet_text v) then 1 else 0) (λ v. 1) 256 v refl h),
  eq-of_agree (λ v. decimal (octet_text v)) (λ v. v) 256 v refl h,
  ground
      (arith, eq-of_agree (λ v. if has_no b'.' (octet_text v) then 1 else 0) (λ v. 1) 256 v refl h),
)

-- Four octets written with full stops between them are split into the same four.
split_octets :
    (a b c d : Text)
    → has_no b'.' a ≡ true
    → has_no b'.' b ≡ true
    → has_no b'.' c ≡ true
    → has_no b'.' d ≡ true
    → split b'.' (dotted a (dotted b (dotted c d))) ≡ a ∷ b ∷ c ∷ d ∷ []
split_octets a b c d ha hb hc hd =
    rw
      (
        split-append b'.' a (dotted b (dotted c d)) ha,
        split-append b'.' b (dotted c d) hb,
        split-append b'.' c d hc,
        split_last b'.' d hd,
      )
      refl

-- The address of four octets.
ipv4_value_join :
    (a b c d : ℕ)
    → a < 256
    → b < 256
    → c < 256
    → d < 256
    → ipv4_value
        (dotted (octet_text a) (dotted (octet_text b) (dotted (octet_text c) (octet_text d))))
      ≡ ok (((a * 256 + b) * 256 + c) * 256 + d)
unfolding ipv4_value reduce_parts
ipv4_value_join a b c d a_fits b_fits c_fits d_fits =
    let (oa, va, sa) = octet_text_lem a a_fits in
    let (ob, vb, sb) = octet_text_lem b b_fits in
    let (oc, vc, sc) = octet_text_lem c c_fits in
    let (od, vd, sd) = octet_text_lem d d_fits in
    let parts =
      split_octets (octet_text a) (octet_text b) (octet_text c) (octet_text d) sa sb sc sd in
    let sum : (((0 * 2 ^ 8 + a) * 2 ^ 8 + b) * 2 ^ 8 + c) * 2 ^ 8 + d
        ≡ ((a * 256 + b) * 256 + c) * 256 + d =
      omega arith in
    rw (parts, oa, ob, oc, od, va, vb, vc, vd) (ap (λ x. ok x) sum)

-- `numberToIpv4` writes every 32-bit address so that it is read back as the same number.
pub ipv4_value-number_to_ipv4 : (v : ℕ) → v < 2 ^ 32 → ipv4_value (number_to_ipv4 v) ≡ ok v
unfolding number_to_ipv4
ipv4_value-number_to_ipv4 v h =
    let whole : v % 2 ^ 32 ≡ v = mod-eq_of_lt h in
    let parts =
      ipv4_value_join (v / 2 ^ 24) (v / 2 ^ 16 % 256) (v / 2 ^ 8 % 256) (v % 256) (omega arith)
        (omega arith) (omega arith) (omega arith) in
    let sum : ((v / 2 ^ 24 * 256 + v / 2 ^ 16 % 256) * 256 + v / 2 ^ 8 % 256) * 256 + v % 256 ≡ v =
      omega arith in
    rw (whole, low_byte (v / 2 ^ 16), low_byte (v / 2 ^ 8), low_byte v) (rw sum at parts)
