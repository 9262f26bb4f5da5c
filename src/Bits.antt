-- ===== src/Bits.antt =====
-- The operations on binary digits, as arithmetic: a mask of high bits rounds down to a block of
-- `2 ^ k`, and filling the low bits gives the last number of the block.
use Prim.Native.Nat.{
  min, max, digits, bitwise, bit_and-bitwise, bit_or-bitwise, bit_xor-bitwise, differ,
}
use native.Mathlib.Nat.{
  pow-suc, one-le-pow, div-lt_iff_lt-mul, div-add-mod', mod-lt, mul-le-mul_right,
}
use management_app.Base.{ℕ, zero, suc, ◌+◌, ◌-◌, ◌*◌, ◌/◌, ◌%◌, ◌^◌, ◌≤◌, ◌<◌, ◌≡◌, refl, ap, arith}
use Prim.Native.Nat.{bit_and, bit_or, bit_xor}

module _ (rest : ℕ → ℕ) (digit : ℕ → ℕ → ℕ) where
  -- The fuel of `digits` is enough once it is no less than the first number.
  fuel_irrelevant :
      (a b fuel more : ℕ)
      → a ≤ fuel
      → a ≤ more
      → digits rest digit more a b ≡ digits rest digit fuel a b
  fuel_irrelevant zero b zero zero _ _ = refl
  fuel_irrelevant zero b zero (suc m) _ _ = refl
  fuel_irrelevant zero b (suc f) zero _ _ = refl
  fuel_irrelevant zero b (suc f) (suc m) _ _ = refl
  fuel_irrelevant (suc a) b zero m h _ = absurd (omega arith)
  fuel_irrelevant (suc a) b (suc f) zero _ h = absurd (omega arith)
  fuel_irrelevant (suc a) b (suc f) (suc m) h g =
      rw (fuel_irrelevant (suc a / 2) (b / 2) f m (omega arith) (omega arith))

  lowest_digit :
      (a b : ℕ)
      → bitwise rest digit (suc a) b
        ≡ digit (suc a % 2) (b % 2) + bitwise rest digit (suc a / 2) (b / 2) * 2
  lowest_digit a b =
      omega (arith, fuel_irrelevant (suc a / 2) (b / 2) (suc a / 2) a (omega arith) (omega arith))

bit_and-halves : (a b : ℕ) → bit_and a b ≡ min (a % 2) (b % 2) + bit_and (a / 2) (b / 2) * 2
bit_and-halves zero b = simp bit_and-bitwise (omega arith)
bit_and-halves (suc a) b = simp bit_and-bitwise (lowest_digit (λ y. 0) min a b)

bit_or-halves : (a b : ℕ) → bit_or a b ≡ max (a % 2) (b % 2) + bit_or (a / 2) (b / 2) * 2
bit_or-halves zero b = simp bit_or-bitwise (omega arith)
bit_or-halves (suc a) b = simp bit_or-bitwise (lowest_digit (λ y. y) max a b)

bit_xor-halves : (a b : ℕ) → bit_xor a b ≡ differ (a % 2) (b % 2) + bit_xor (a / 2) (b / 2) * 2
bit_xor-halves zero b = simp bit_xor-bitwise (omega arith)
bit_xor-halves (suc a) b = simp bit_xor-bitwise (lowest_digit (λ y. y) differ a b)

pub bit_and_zero : (n a : ℕ) → a ≤ n → bit_and a 0 ≡ 0
bit_and_zero n zero h = refl
bit_and_zero zero (suc a) h = absurd (omega arith)
bit_and_zero (suc n) (suc a) h =
    omega (arith, bit_and-halves (suc a) 0, bit_and_zero n (suc a / 2) (omega arith))

bit_or_zero : (n a : ℕ) → a ≤ n → bit_or a 0 ≡ a
bit_or_zero n zero h = refl
bit_or_zero zero (suc a) h = absurd (omega arith)
bit_or_zero (suc n) (suc a) h =
    omega (arith, bit_or-halves (suc a) 0, bit_or_zero n (suc a / 2) (omega arith))

differ_zero : (d : ℕ) → differ d 0 ≡ d
differ_zero zero = refl
differ_zero (suc d) = refl

differ_self : (d : ℕ) → differ d d ≡ 0
differ_self zero = refl
differ_self (suc d) = differ_self d

bit_xor_zero : (n a : ℕ) → a ≤ n → bit_xor a 0 ≡ a
bit_xor_zero n zero h = refl
bit_xor_zero zero (suc a) h = absurd (omega arith)
bit_xor_zero (suc n) (suc a) h = omega (
  arith,
  bit_xor-halves (suc a) 0,
  differ_zero (suc a % 2),
  bit_xor_zero n (suc a / 2) (omega arith),
)

-- A block of `2 ^ suc k` is two blocks of `2 ^ k`.
two_blocks : (q k : ℕ) → q * 2 ^ suc k ≡ 2 * (q * 2 ^ k)
two_blocks q k = omega (arith, ap (λ (t : ℕ). q * t) (pow-suc 2 k))

-- Filling the `k` low bits of a multiple of `2 ^ k`.
pub bit_or_block : (k q r : ℕ) → r < 2 ^ k → bit_or (q * 2 ^ k) r ≡ q * 2 ^ k + r
bit_or_block zero q r fits = ground (arith, bit_or_zero q q (omega arith))
bit_or_block (suc k) q r fits =
    ground (
      arith,
      bit_or-halves (q * 2 ^ suc k) r,
      two_blocks q k,
      bit_or_block k q (r / 2) (omega arith),
    )

-- A mask without its `k` low bits drops them, and the rest of the mask tests the rest.
bit_and_block :
    (k q r m : ℕ) → r < 2 ^ k → bit_and (q * 2 ^ k + r) (m * 2 ^ k) ≡ bit_and q m * 2 ^ k
bit_and_block zero q r m fits =
    let of_value : q * 2 ^ 0 + r ≡ q = omega arith in
    let of_mask : m * 2 ^ 0 ≡ m = omega arith in rw (of_value, of_mask) (omega arith)
bit_and_block (suc k) q r m fits = ground (
  arith,
  bit_and-halves (q * 2 ^ suc k + r) (m * 2 ^ suc k),
  two_blocks q k,
  two_blocks m k,
  two_blocks (bit_and q m) k,
  bit_and_block k q (r / 2) m (omega arith),
)

-- A mask of the `k` low bits takes the remainder.
bit_and_low_part : (k q r : ℕ) → r < 2 ^ k → bit_and (q * 2 ^ k + r) (2 ^ k - 1) ≡ r
bit_and_low_part zero q r fits =
    let all_of_it : q * 2 ^ 0 + r ≡ q = omega arith in
    rw all_of_it (omega (arith, bit_and_zero q q (omega arith)))
bit_and_low_part (suc k) q r fits = ground (
  arith,
  bit_and-halves (q * 2 ^ suc k + r) (2 ^ suc k - 1),
  two_blocks q k,
  pow-suc 2 k,
  one-le-pow k 2,
  bit_and_low_part k q (r / 2) (omega arith),
)

pub bit_and_low : (k v : ℕ) → bit_and v (2 ^ k - 1) ≡ v % 2 ^ k
bit_and_low k v =
    let rest =
      bit_and_low_part k (v / 2 ^ k) (v % 2 ^ k) (mod-lt v (one-le-pow k 2 (omega arith))) in
    rw (div-add-mod' v (2 ^ k)) at rest

-- A mask of ones keeps what fits below it.
bit_and_ones : (j q : ℕ) → q < 2 ^ j → bit_and q (2 ^ j - 1) ≡ q
bit_and_ones zero q fits = ground (arith, bit_and_zero q q (omega arith))
bit_and_ones (suc j) q fits = ground (
  arith,
  bit_and-halves q (2 ^ suc j - 1),
  pow-suc 2 j,
  one-le-pow j 2,
  bit_and_ones j (q / 2) (omega arith),
)

-- Exclusive or with the low part takes it off.
bit_xor_block : (k q r : ℕ) → r < 2 ^ k → bit_xor (q * 2 ^ k + r) r ≡ q * 2 ^ k
bit_xor_block zero q r fits = ground (arith, bit_xor_zero q q (omega arith))
bit_xor_block (suc k) q r fits = ground (
  arith,
  bit_xor-halves (q * 2 ^ suc k + r) r,
  two_blocks q k,
  same_digit,
  bit_xor_block k q (r / 2) (omega arith),
)
  where
    same_digit : differ ((q * 2 ^ suc k + r) % 2) (r % 2) ≡ 0
    same_digit =
        let e : (q * 2 ^ suc k + r) % 2 ≡ r % 2 = omega (arith, two_blocks q k) in
        rw e (differ_self (r % 2))

pub pow-add : (n k : ℕ) → 2 ^ (n + k) ≡ 2 ^ n * 2 ^ k
pow-add n zero = let e : n + 0 ≡ n = omega arith in rw e (omega arith)
pow-add n (suc k) =
    let e : n + suc k ≡ suc (n + k) = omega arith in
    rw e (
      omega (
        arith,
        pow-suc 2 (n + k),
        pow-suc 2 k,
        pow-add n k,
        ap (λ (t : ℕ). 2 ^ n * t) (pow-suc 2 k),
      ))

mask_size : (j k : ℕ) → (2 ^ j - 1) * 2 ^ k + (2 ^ k - 1) ≡ 2 ^ (j + k) - 1
mask_size j k =
    let ones : suc (2 ^ j - 1) ≡ 2 ^ j = omega (arith, one-le-pow j 2) in
    let product : suc (2 ^ j - 1) * 2 ^ k ≡ 2 ^ j * 2 ^ k = ap (λ (t : ℕ). t * 2 ^ k) ones in
    omega (arith, pow-add j k, one-le-pow k 2, product)

-- The ones of a word of `j + k` bits without the `k` lowest.
pub high_mask : (j k : ℕ) → bit_xor (2 ^ (j + k) - 1) (2 ^ k - 1) ≡ (2 ^ j - 1) * 2 ^ k
high_mask j k =
    rw (← mask_size j k) (bit_xor_block k (2 ^ j - 1) (2 ^ k - 1) (omega (arith, one-le-pow k 2)))

quotient_bound : (j k v : ℕ) → v < 2 ^ (j + k) → v / 2 ^ k < 2 ^ j
quotient_bound j k v h =
    (div-lt_iff_lt-mul (omega (arith, one-le-pow k 2))).1 (omega (arith, pow-add j k))

-- A mask of the high bits rounds down to a block of `2 ^ k`.
pub mask_rounds_down :
    (j k v : ℕ) → v < 2 ^ (j + k) → bit_and v ((2 ^ j - 1) * 2 ^ k) ≡ v / 2 ^ k * 2 ^ k
mask_rounds_down j k v h =
    let split : v / 2 ^ k * 2 ^ k + v % 2 ^ k ≡ v = div-add-mod' v (2 ^ k) in
    let block =
      bit_and_block k (v / 2 ^ k) (v % 2 ^ k) (2 ^ j - 1)
        (mod-lt v (omega (arith, one-le-pow k 2))) in
    rw (split, bit_and_ones j (v / 2 ^ k) (quotient_bound j k v h)) at block

-- The whole block of a number below a power of two lies below that power.
pub block_fits : (j k v : ℕ) → v < 2 ^ (j + k) → suc (v / 2 ^ k) * 2 ^ k ≤ 2 ^ (j + k)
block_fits j k v h = omega (arith, pow-add j k, mul-le-mul_right (2 ^ k) (quotient_bound j k v h))
