-- ===== src/Bytes.antt =====
-- src/kernel/string.c: copying, comparing and measuring bytes in memory.
-- Memory is a function from addresses to bytes, and no range wraps around the address space. An
-- instruction `rep movs` is a loop over units, each read as a whole before it is written.
pub mod Copy
pub mod Fill
pub mod Compare
mod Tests
use zoho_os.Prelude.{
  ℕ, zero, suc, ◌+◌, ◌-◌, ◌*◌, ◌/◌, ◌%◌, ◌^◌, bit_or, Bool, true, false, not, ◌&&◌, ◌||◌, Option,
  none, some, arith, ◌==◌, ltb, leb, if◌then◌else◌, update,
}

abbrev pub Memory : Type 0
Memory = ℕ → ℕ

abbrev pub within : ℕ → ℕ → ℕ → Bool
within start size a = leb start a && ltb a (start + size)

-- The bytes of `val`, the lowest one first, are written at `d`.
abbrev pub stored : ℕ → ℕ → ℕ → Memory → Memory
stored d width val m a = if within d width a then val / 2 ^ (8 * (a - d)) % 2 ^ 8 else m a

-- `rep stos` for `count` units of `width` bytes.
unfoldable pub rep_stos : ℕ → ℕ → ℕ → ℕ → Memory → Memory
rep_stos width zero d val m = m
rep_stos width (suc count) d val m = rep_stos width count (d + width) val (stored d width val m)

-- `val |= val << shift`
unfoldable pub doubled : ℕ → ℕ → ℕ
doubled shift val = bit_or (val * 2 ^ shift % 2 ^ 64) val

unfoldable pub memset : ℕ → ℕ → ℕ → Memory → Memory
unfolding rep_stos doubled
memset s c n m =
    let val = doubled 32 (doubled 16 (doubled 8 (c % 2 ^ 8))) in
    rep_stos 1 (n % 8) (s + 8 * (n / 8)) val (rep_stos 8 (n / 8) s val m)

-- The `size` bytes at `s` are written at `d`, all read before.
abbrev pub copied : ℕ → ℕ → ℕ → Memory → Memory
copied d s size m a = if within d size a then m (s + (a - d)) else m a

-- `rep movs` for `count` units of `width` bytes.
unfoldable pub rep_movs : ℕ → ℕ → ℕ → ℕ → Memory → Memory
rep_movs width zero d s m = m
rep_movs width (suc count) d s m = rep_movs width count (d + width) (s + width) (copied d s width m)

unfoldable pub memcpy : ℕ → ℕ → ℕ → Memory → Memory
unfolding rep_movs
memcpy dest src n m =
    let m' = rep_movs 8 (n / 8) dest src m in
    rep_movs 1 (n % 8) (dest + 8 * (n / 8)) (src + 8 * (n / 8)) m'

-- The loop of `memmove`, from byte `i - 1` down to byte 0.
unfoldable pub copy_down : ℕ → ℕ → ℕ → Memory → Memory
copy_down zero d s m = m
copy_down (suc i) d s m = copy_down i d s (update m (d + i) (m (s + i)))

unfoldable pub memmove : ℕ → ℕ → ℕ → Memory → Memory
unfolding memcpy copy_down
memmove dest src n m =
    if dest == src || n == 0
    then m
    else if ltb dest src || leb (src + n) dest
    then memcpy dest src n m
    else copy_down n dest src m

-- C's `int`, as far as the comparisons use it.
pub data ℤ : Type 0 where
  pos negsuc : ℕ → ℤ

-- `a - b`
unfoldable pub difference : ℕ → ℕ → ℤ
difference a b = if leb b a then pos (a - b) else negsuc (b - a - 1)

unfoldable pub memcmp : ℕ → ℕ → ℕ → Memory → ℤ
memcmp p₁ p₂ zero m = pos 0
memcmp p₁ p₂ (suc n) m =
    let rest = memcmp (suc p₁) (suc p₂) n m in
    if not (m p₁ == m p₂) then difference (m p₁) (m p₂) else rest

-- In the loops over strings `none` says that the fuel ran out.
unfoldable pub strcmp : ℕ → ℕ → ℕ → Memory → Option ℤ
strcmp zero s₁ s₂ m = none
strcmp (suc fuel) s₁ s₂ m =
    let rest = strcmp fuel (suc s₁) (suc s₂) m in
    if not (m s₁ == 0) && m s₁ == m s₂ then rest else some (difference (m s₁) (m s₂))

unfoldable pub strcpy : ℕ → ℕ → ℕ → Memory → Option Memory
strcpy zero d src m = none
strcpy (suc fuel) d src m =
    let m' = update m d (m src) in
    let rest = strcpy fuel (suc d) (suc src) m' in if m src == 0 then some m' else rest

-- The loop of `strlen`, where `len` bytes have been passed.
unfoldable pub strlen_from : ℕ → ℕ → ℕ → Memory → Option ℕ
strlen_from zero s len m = none
strlen_from (suc fuel) s len m =
    let rest = strlen_from fuel s (len + 1) m in if m (s + len) == 0 then some len else rest

unfoldable pub strlen : ℕ → ℕ → Memory → Option ℕ
unfolding strlen_from
strlen fuel s m = strlen_from fuel s 0 m
