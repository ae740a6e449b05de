-- ===== src/Bits.antt =====
-- Single bits of a number: `x & (1 << k)`, `x | (1 << k)`, `x & ~(1 << k)` and masks, read bit by bit.
pub mod Step
pub mod Fields
use mathlib.Core.WellFounded
use native.Mathlib.Nat.{pow-suc, one-le-pow}
use zoho_os.Prelude.{
  ℕ, zero, suc, ◌+◌, ◌-◌, ◌*◌, ◌/◌, ◌%◌, ◌^◌, ◌≤◌, ◌<◌, min, max, bit_and, bit_or, ◌≡◌, refl, ap,
  ◌≢◌, Bool, true, false, not, ◌&&◌, ◌||◌, arith, ◌==◌, if◌then◌else◌,
}
use Step.{bit_or_step, bit_and_step}

-- Bit `k` of `x`.
abbrev pub bit : ℕ → ℕ → Bool
bit x zero = (x % 2) == 1
bit x (suc k) = bit (x / 2) k

pub bit-zero : (k : ℕ) → bit 0 k ≡ false
bit-zero zero = refl
bit-zero (suc k) = bit-zero k

pub bit-bit_or : (a b k : ℕ) → bit (bit_or a b) k ≡ (bit a k || bit b k)
bit-bit_or a b zero = ground (arith, bit_or_step a b)
bit-bit_or a b (suc k) = ground (arith, bit-bit_or (a / 2) (b / 2) k, half)
  where
    half : bit_or a b / 2 ≡ bit_or (a / 2) (b / 2)
    half = omega (arith, bit_or_step a b)

pub bit-bit_and : (a b k : ℕ) → bit (bit_and a b) k ≡ (bit a k && bit b k)
bit-bit_and a b zero = ground (arith, bit_and_step a b)
bit-bit_and a b (suc k) = ground (arith, bit-bit_and (a / 2) (b / 2) k, half)
  where
    half : bit_and a b / 2 ≡ bit_and (a / 2) (b / 2)
    half = omega (arith, bit_and_step a b)

two-pow-suc-half : (k : ℕ) → 2 ^ suc k / 2 ≡ 2 ^ k
two-pow-suc-half k = omega (arith, pow-suc 2 k)

pub bit-pow : (k j : ℕ) → bit (2 ^ k) j ≡ (j == k)
bit-pow zero zero = refl
bit-pow zero (suc j) = rw (bit-zero j) (ground arith)
bit-pow (suc k) zero = ground (arith, pow-suc 2 k)
bit-pow (suc k) (suc j) = ground (arith, two-pow-suc-half k, bit-pow k j)

-- `~x` on words of `w` bits.
abbrev pub complement : ℕ → ℕ → ℕ
complement w x = 2 ^ w - 1 - x

pub bit-complement : (w x k : ℕ) → x < 2 ^ w → k < w → bit (complement w x) k ≡ not (bit x k)
bit-complement zero x k fits h = absurd (omega arith)
bit-complement (suc w) x zero fits h = ground (arith, pow-suc 2 w)
bit-complement (suc w) x (suc k) fits h =
    ground (arith, pow-suc 2 w, half, bit-complement w (x / 2) k)
  where
    half : complement (suc w) x / 2 ≡ complement w (x / 2)
    half = omega (arith, pow-suc 2 w)

bit_and-zero : (n a : ℕ) → a ≤ n → bit_and a 0 ≡ 0
bit_and-zero n zero h = refl
bit_and-zero zero (suc a) h = absurd (omega arith)
bit_and-zero (suc n) (suc a) h =
    omega (arith, bit_and_step (suc a) 0, bit_and-zero n (suc a / 2) (omega arith))

-- `x & (1 << k)` is the bit in its place, or 0.
pub bit_and-pow : (x k : ℕ) → bit_and x (2 ^ k) ≡ (if bit x k then 2 ^ k else 0)
bit_and-pow x zero = ground (arith, bit_and_step x 1, bit_and-zero (x / 2) (x / 2))
bit_and-pow x (suc k) =
    ground
      (arith, bit_and_step x (2 ^ suc k), pow-suc 2 k, two-pow-suc-half k, bit_and-pow (x / 2) k)

pub bit_and-pow_is_zero : (x k : ℕ) → (bit_and x (2 ^ k) == 0) ≡ not (bit x k)
bit_and-pow_is_zero x k = ground (arith, bit_and-pow x k, one-le-pow k 2)

-- A number below `2 ^ w` has no bit at `w` or above.
pub bit_above : (w x k : ℕ) → x < 2 ^ w → w ≤ k → bit x k ≡ false
bit_above zero x k fits h = ground (arith, bit-zero k)
bit_above (suc w) x zero fits h = absurd (omega arith)
bit_above (suc w) x (suc k) fits h =
    bit_above w (x / 2) k (omega (arith, pow-suc 2 w)) (omega arith)
