-- ===== src/Discovery/Hosts/Words.antt =====
-- The 32-bit masks of `hostsFor` are those of `parseNetwork`.
use Prim.Native.Nat.{bit_and}
use management_app.Base.{
  ℕ, zero, suc, ◌-◌, ◌%◌, ◌^◌, ◌≤◌, ◌<◌, ◌≡◌, refl, arith, Bool, true, eqb, ◌&&◌,
}
use management_app.Bits.{bit_and_low}
use management_app.Discovery.Networks.{network_mask}
use management_app.Discovery.Hosts.{mask32, complement32}

-- Two functions agree on every number below a bound, tested one by one.
module _ (f g : ℕ → ℕ) where
  unfoldable pub agree : ℕ → Bool
  agree zero = true
  agree (suc n) = eqb (f n) (g n) && agree n

  pub eq-of_agree : (n i : ℕ) → agree n ≡ true → i < n → f i ≡ g i
  unfolding agree
  eq-of_agree zero i h below = absurd (omega arith)
  eq-of_agree (suc n) i h below = ground (arith, eq-of_agree n i)

pub mask32_lem : (bits : ℕ) → bits ≤ 32 → mask32 bits ≡ network_mask 32 (32 - bits)
unfolding agree
mask32_lem bits h = eq-of_agree mask32 (λ b. network_mask 32 (32 - b)) 33 bits refl (omega arith)

pub complement32_lem : (bits : ℕ) → bits ≤ 32 → complement32 (mask32 bits) ≡ 2 ^ (32 - bits) - 1
unfolding agree
complement32_lem bits h =
    eq-of_agree (λ b. complement32 (mask32 b)) (λ b. 2 ^ (32 - b) - 1) 33 bits refl (omega arith)

pub low_byte : (v : ℕ) → bit_and v 255 ≡ v % 256
low_byte v = bit_and_low 8 v
