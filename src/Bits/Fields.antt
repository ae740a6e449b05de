-- ===== src/Bits/Fields.antt =====
-- `|` of numbers whose bits do not overlap: a field above and a field below.
use native.Mathlib.Nat.{pow-suc}
use zoho_os.Prelude.{
  ℕ, zero, suc, ◌+◌, ◌-◌, ◌*◌, ◌/◌, ◌%◌, ◌^◌, ◌≤◌, ◌<◌, bit_or, ◌≡◌, refl, ap, ◌∙◌, arith,
}
use zoho_os.Bits.Step.{bit_or_step}

bit_or-zero_le : (n a : ℕ) → a ≤ n → bit_or a 0 ≡ a
bit_or-zero_le n zero h = refl
bit_or-zero_le zero (suc a) h = absurd (omega arith)
bit_or-zero_le (suc n) (suc a) h =
    omega (arith, bit_or_step (suc a) 0, bit_or-zero_le n (suc a / 2) (omega arith))

twice : (k a : ℕ) → a * 2 ^ suc k ≡ a * 2 ^ k * 2
twice k a = grind (arith, pow-suc 2 k)

-- A number below `2 ^ k` fills the low bits of a multiple of `2 ^ k`.
pub bit_or-add : (k a b : ℕ) → b < 2 ^ k → bit_or (a * 2 ^ k) b ≡ a * 2 ^ k + b
bit_or-add zero a b h =
    let e : b ≡ 0 = omega arith in rw e (bit_or-zero_le (a * 1) (a * 1) (omega arith) ∙ omega arith)
bit_or-add (suc k) a b h = rw (twice k a) (
    omega (
      arith,
      bit_or_step (a * 2 ^ k * 2) b,
      ap (λ (x : ℕ). bit_or x (b / 2)) (half (a * 2 ^ k)),
      bit_or-add k a (b / 2) (omega (arith, pow-suc 2 k)),
    ))
  where
    half : (x : ℕ) → x * 2 / 2 ≡ x
    half x = omega arith

-- `|` of a number below `2 ^ k` changes only the bits below `k`.
pub bit_or-low :
    (k a b c : ℕ) → b < 2 ^ k → c < 2 ^ k → bit_or (a * 2 ^ k + b) c ≡ a * 2 ^ k + bit_or b c
bit_or-low zero a b c hb hc =
    let e : b ≡ 0 = omega arith in
    let d : c ≡ 0 = omega arith in
    rw e (
      rw d
        (bit_or-zero_le (a * 1 + 0) (a * 1 + 0) (omega arith) ∙ omega (arith, bit_or-zero_le 0 0)))
bit_or-low (suc k) a b c hb hc = rw (twice k a) (
    omega (
      arith,
      bit_or_step (a * 2 ^ k * 2 + b) c,
      bit_or_step b c,
      ap (λ (x : ℕ). bit_or x (c / 2)) (half (a * 2 ^ k)),
      bit_or-low k a (b / 2) (c / 2) (omega (arith, pow-suc 2 k)) (omega (arith, pow-suc 2 k)),
    ))
  where
    half : (x : ℕ) → (x * 2 + b) / 2 ≡ x + b / 2
    half x = omega arith

-- `| 1` sets the lowest bit.
pub bit_or-one : (x : ℕ) → bit_or x 1 ≡ x - x % 2 + 1
bit_or-one x = omega (arith, bit_or_step x 1, bit_or-zero_le (x / 2) (x / 2) (omega arith))
