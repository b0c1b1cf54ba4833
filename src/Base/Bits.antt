-- ===== src/Base/Bits.antt =====
-- A mask of `k` ones keeps the remainder modulo `2 ^ k`.
use Prim.Native.Nat.{
  ℕ, zero, suc, ◌+◌, ◌-◌, ◌*◌, ◌/◌, ◌%◌, ◌^◌, ◌≤◌, ◌<◌, min, bit_and, digits, bit_and-bitwise,
}
use mathlib.Core.Path.{◌≡◌, ap, ◌∙◌}
use native.Mathlib.Nat.{pow-suc, mod-eq_of_lt, mod-lt, div-add-mod}
use native.Mathlib.Omega.{arith}

pub two_pow-pos : (k : ℕ) → 0 < 2 ^ k
two_pow-pos zero = omega arith
two_pow-pos (suc k) = omega (arith, pow-suc 2 k, two_pow-pos k)

-- The remainder is the only one that fits.
pub mod_unique : (d q r : ℕ) → r < d → (q * d + r) % d ≡ r
mod_unique d q r h = grind arith

mod_double : (p x : ℕ) → 0 < p → x % (p * 2) ≡ x / 2 % p * 2 + x % 2
mod_double p x h =
    let q : ℕ = x / 2 / p in
    let r : ℕ = x / 2 % p in
    ap (λ t. t % (p * 2)) (omega (arith, div-add-mod (x / 2) p))
    ∙ mod_unique (p * 2) q (r * 2 + x % 2) (omega (arith, mod-lt (x / 2) h))

mask_half : (p : ℕ) → 0 < p → ((p * 2 - 1) / 2 ≡ p - 1) × ((p * 2 - 1) % 2 ≡ 1)
mask_half p h = (omega arith, omega arith)

digits_mask : (n k a : ℕ) → a ≤ n → digits (λ b. zero) min n a (2 ^ k - 1) ≡ a % 2 ^ k
digits_mask zero k zero h = omega (arith, mod-eq_of_lt (two_pow-pos k))
digits_mask zero k (suc a) h = absurd (omega arith)
digits_mask (suc n) k zero h = omega (arith, mod-eq_of_lt (two_pow-pos k))
digits_mask (suc n) zero (suc a) h = omega (arith, digits_mask n zero (suc a / 2) (omega arith))
digits_mask (suc n) (suc k) (suc a) h =
    let (half, odd) = mask_half (2 ^ k) (two_pow-pos k) in
    rw (pow-suc 2 k, half, odd, digits_mask n k (suc a / 2) (omega arith))
      (omega (arith, mod_double (2 ^ k) (suc a) (two_pow-pos k)))

pub bit_and_mask : (k a : ℕ) → bit_and a (2 ^ k - 1) ≡ a % 2 ^ k
bit_and_mask k a = bit_and-bitwise a (2 ^ k - 1) ∙ digits_mask a k a (omega arith)
