-- ===== src/Bytes/Tests.antt =====
-- src/kernel/string.c: the theorems on memory at concrete states, and runs of its code.
use zoho_os.Prelude.{ℕ, ◌+◌, ◌<◌, ◌≡◌, ◌≢◌, refl, arith, update}
use zoho_os.Bytes.{Memory, copy_down, memmove}
use zoho_os.Bytes.Copy.{memmove_copies}

-- The strings "ab" at 100 and "ac" at 200, and zeros elsewhere.
abbrev two_strings : Memory
two_strings = update (update (update (update (λ a. 0) 100 97) 101 98) 200 97) 201 99

-- A copy by one byte upwards, which overlaps.
shifted_up : memmove 101 100 2 two_strings 102 ≡ 98
unfolding memmove copy_down
shifted_up = refl

ab_text : (i : ℕ) → i < 2 → two_strings (100 + i) ≢ 0
ab_text i h z = ground (arith, z)

memmove_copies_example : memmove 101 100 2 two_strings 102 ≡ 98
memmove_copies_example = memmove_copies 101 100 2 two_strings 102
