-- ===== src/Format/Tests.antt =====
-- src/kernel/printf.c: the theorems about formatted output at concrete numbers and formats, and runs.
use zoho_os.Prelude.{
  ℕ, zero, suc, ap, ◌≢◌, ◌-◌, ◌^◌, ◌<◌, ◌≤◌, ◌≡◌, refl, inr, true, false, List, [], ◌∷◌, ◌++◌,
  length, take, arith,
}
use zoho_os.Bytes.{Memory}
use zoho_os.Format.{int_bits, itoa, vsnprintf}
use zoho_os.Format.Digits.{nth, TextAt, Printed, itoa-Printed}
use zoho_os.Format.Render.{render, is_complete, vsnprintf-cut, vsnprintf_fits}

abbrev blank : Memory
blank a = 0

itoa-Printed_example : Printed 16 48879 (itoa 48879 blank 16)
itoa-Printed_example = itoa-Printed 48879 16 blank (inr refl) (omega arith)

-- "a=%d!" at address 0
abbrev shout : List ℕ
shout = b'a' ∷ b'=' ∷ b'%' ∷ b'd' ∷ b'!' ∷ []

abbrev shout_memory : Memory
shout_memory = nth shout

shout_full : (i : ℕ) → i < 5 → nth shout i ≢ 0
shout_full zero h = ground arith
shout_full (suc zero) h = ground arith
shout_full (suc (suc zero)) h = ground arith
shout_full (suc (suc (suc zero))) h = ground arith
shout_full (suc (suc (suc (suc zero)))) h = ground arith
shout_full (suc (suc (suc (suc (suc i))))) h = absurd (omega arith)

shout-TextAt : TextAt shout_memory 0 shout
shout-TextAt = record {
  same = λ i h. ap shout_memory (omega arith);
  full = shout_full;
  ends = refl;
}

shout_complete : is_complete false shout ≡ true
unfolding is_complete
shout_complete = refl

-- -12 as a word of 64 bits
abbrev minus_twelve : ℕ → ℕ
minus_twelve k = 2 ^ 64 - 12

vsnprintf-cut_example : vsnprintf 6 shout_memory blank 5 0 minus_twelve ≡ (
  take 4 (render 4 shout_memory minus_twelve false shout 0) ++ 0 ∷ [],
  int_bits (length (take 4 (render 4 shout_memory minus_twelve false shout 0))),
)
vsnprintf-cut_example =
    vsnprintf-cut 6 shout_memory blank minus_twelve 5 0 shout (omega arith) (omega arith)
      (omega arith) shout_complete shout-TextAt

vsnprintf_fits_example :
    (length (vsnprintf 6 shout_memory blank 5 0 minus_twelve).0 ≤ 5)
    × ((vsnprintf 6 shout_memory blank 5 0 minus_twelve).1 < 5)
vsnprintf_fits_example =
    vsnprintf_fits 6 shout_memory blank minus_twelve 5 0 (omega arith) (omega arith)

-- "a=-1" is all that five bytes have room for.
shout_cut :
    vsnprintf 6 shout_memory blank 5 0 minus_twelve ≡ (b'a' ∷ b'=' ∷ b'-' ∷ b'1' ∷ 0 ∷ [], 4)
unfolding vsnprintf
shout_cut = refl
