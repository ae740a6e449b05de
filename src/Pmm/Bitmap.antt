-- ===== src/Pmm/Bitmap.antt =====
-- src/kernel/pmm.c: the frame bitmap, one bit for each physical frame, in words of 32 bits.
-- The array of the code has MAX_FRAMES / 32 words: a write behind them is not modelled, since here every
-- frame has its bit.
use native.Mathlib.Nat.{pow-le-pow_right}
use zoho_os.Prelude.{
  ℕ, ◌/◌, ◌%◌, ◌^◌, ◌<◌, bit_and, bit_or, ◌≡◌, Bool, not, ◌&&◌, ◌||◌, arith, ◌==◌, update,
}
use zoho_os.Bits.{
  bit, bit-bit_or, bit-bit_and, bit-pow, complement, bit-complement, bit_and-pow_is_zero,
}

-- `frame_bitmap`, from the index of a word to its value.
abbrev pub BitWords : Type 0
BitWords = ℕ → ℕ

unfoldable pub bitmap_set : BitWords → ℕ → BitWords
bitmap_set w frame = update w (frame / 32) (bit_or (w (frame / 32)) (2 ^ (frame % 32)))

unfoldable pub bitmap_unset : BitWords → ℕ → BitWords
bitmap_unset w frame =
    update w (frame / 32) (bit_and (w (frame / 32)) (complement 32 (2 ^ (frame % 32))))

-- `bitmap_test` as a truth value: C takes every value but 0 for true.
unfoldable pub bitmap_test : BitWords → ℕ → Bool
bitmap_test w frame = not (bit_and (w (frame / 32)) (2 ^ (frame % 32)) == 0)

pub bitmap_test-bit : (w : BitWords) (f : ℕ) → bitmap_test w f ≡ bit (w (f / 32)) (f % 32)
unfolding bitmap_test
bitmap_test-bit w f = ground (arith, bit_and-pow_is_zero (w (f / 32)) (f % 32))

two-pow-lt : (k : ℕ) → k < 32 → 2 ^ k < 2 ^ 32
two-pow-lt k h =
    omega (arith, pow-le-pow_right {n = 2} (omega arith) {i = k} {j = 31} (omega arith))

-- Setting a frame's bit changes the test of that frame and of no other.
pub bitmap_test-bitmap_set :
    (w : BitWords) (f g : ℕ) → bitmap_test (bitmap_set w f) g ≡ ((g == f) || bitmap_test w g)
unfolding bitmap_set
bitmap_test-bitmap_set w f g = ground (
  arith,
  bitmap_test-bit w g,
  bitmap_test-bit (bitmap_set w f) g,
  bit-bit_or (w (f / 32)) (2 ^ (f % 32)) (g % 32),
  bit-pow (f % 32) (g % 32),
)

-- Clearing it, likewise.
pub bitmap_test-bitmap_unset :
    (w : BitWords) (f g : ℕ) → bitmap_test (bitmap_unset w f) g ≡ (not (g == f) && bitmap_test w g)
unfolding bitmap_unset
bitmap_test-bitmap_unset w f g = ground (
  arith,
  bitmap_test-bit w g,
  bitmap_test-bit (bitmap_unset w f) g,
  bit-bit_and (w (f / 32)) (complement 32 (2 ^ (f % 32))) (g % 32),
  bit-complement 32 (2 ^ (f % 32)) (g % 32) (two-pow-lt (f % 32) (omega arith)) (omega arith),
  bit-pow (f % 32) (g % 32),
)
