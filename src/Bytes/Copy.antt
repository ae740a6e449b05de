-- ===== src/Bytes/Copy.antt =====
-- src/kernel/string.c: what the copying functions write.
use zoho_os.Prelude.{
  ℕ, zero, suc, ◌+◌, ◌-◌, ◌*◌, ◌/◌, ◌%◌, ◌≤◌, ◌<◌, ◌≡◌, ◌≢◌, refl, ap, sym, ◌∙◌, subst, ◌||◌, some,
  arith, ◌==◌, ltb, leb, update, Bool-cases, inl, inr, ◌⊎◌,
}
use mathlib.Core.Path.{fun_ext}
use zoho_os.Bytes.{Memory, within, copied, rep_movs, memcpy, copy_down, memmove, strcpy}

-- The bytes in `count` units of `width`.
unfoldable pub bytes_in : ℕ → ℕ → ℕ
bytes_in width zero = 0
bytes_in width (suc count) = width + bytes_in width count

pub bytes_in_eight : (count : ℕ) → bytes_in 8 count ≡ 8 * count
unfolding bytes_in
bytes_in_eight zero = refl
bytes_in_eight (suc count) = omega (arith, bytes_in_eight count)

pub bytes_in_one : (count : ℕ) → bytes_in 1 count ≡ count
unfolding bytes_in
bytes_in_one zero = refl
bytes_in_one (suc count) = omega (arith, bytes_in_one count)

-- Copying upwards is safe onto lower addresses and onto a range apart.
abbrev pub UpwardsSafe : ℕ → ℕ → ℕ → Type 0
UpwardsSafe d s n = (d ≤ s) ⊎ (s + n ≤ d)

copied-copied :
    (d s x y : ℕ) (m : Memory) (a : ℕ)
    → UpwardsSafe d s (x + y)
    → copied (d + x) (s + x) y (copied d s x m) a ≡ copied d s (x + y) m a
copied-copied d s x y m a (inl low) = ground arith
copied-copied d s x y m a (inr apart) = ground arith

later_safe : (d s x y : ℕ) → UpwardsSafe d s (x + y) → UpwardsSafe (d + x) (s + x) y
later_safe d s x y (inl low) = inl (omega arith)
later_safe d s x y (inr apart) = inr (omega arith)

rep_movs_copies :
    (width count d s : ℕ) (m : Memory) (a : ℕ)
    → UpwardsSafe d s (bytes_in width count)
    → rep_movs width count d s m a ≡ copied d s (bytes_in width count) m a
unfolding rep_movs bytes_in
rep_movs_copies width zero d s m a safe = ground arith
rep_movs_copies width (suc count) d s m a safe =
    let b = bytes_in width count in
    rep_movs_copies width count (d + width) (s + width) (copied d s width m) a
      (later_safe d s width b safe)
    ∙ copied-copied d s width b m a safe

copy_down_copies : (n d s : ℕ) (m : Memory) (a : ℕ) → s < d → copy_down n d s m a ≡ copied d s n m a
unfolding copy_down
copy_down_copies zero d s m a h = ground arith
copy_down_copies (suc i) d s m a h =
    copy_down_copies i d s (update m (d + i) (m (s + i))) a h ∙ ground arith

-- `memcpy` writes a copy of the bytes as they were, and nothing else, if the target starts no higher than the source or behind it.
pub memcpy_copies :
    (d s n : ℕ) (m : Memory) (a : ℕ) → UpwardsSafe d s n → memcpy d s n m a ≡ copied d s n m a
unfolding memcpy
memcpy_copies d s n m a safe =
    ap (λ m'. rep_movs 1 (n % 8) (d + 8 * (n / 8)) (s + 8 * (n / 8)) m' a) (fun_ext quads)
    ∙ subst
        (λ b.
          rep_movs 1 (n % 8) (d + 8 * (n / 8)) (s + 8 * (n / 8)) (copied d s (8 * (n / 8)) m) a
          ≡ copied (d + 8 * (n / 8)) (s + 8 * (n / 8)) b (copied d s (8 * (n / 8)) m) a)
        (bytes_in_one (n % 8))
        (rep_movs_copies 1 (n % 8) (d + 8 * (n / 8)) (s + 8 * (n / 8)) (copied d s (8 * (n / 8)) m)
          a
          (subst (UpwardsSafe (d + 8 * (n / 8)) (s + 8 * (n / 8))) (sym (bytes_in_one (n % 8)))
            (later_safe d s (8 * (n / 8)) (n % 8) whole)))
    ∙ copied-copied d s (8 * (n / 8)) (n % 8) m a whole
    ∙ ap (λ l. copied d s l m a) (omega arith)
  where
    whole : UpwardsSafe d s (8 * (n / 8) + n % 8)
    whole = subst (UpwardsSafe d s) (omega arith) safe

    quads : (b : ℕ) → rep_movs 8 (n / 8) d s m b ≡ copied d s (8 * (n / 8)) m b
    quads b =
        rep_movs_copies 8 (n / 8) d s m b (elim safe [
          | inl low ↦ inl low
          | inr apart ↦ inr (omega (arith, bytes_in_eight (n / 8)))
        ])
        ∙ ap (λ l. copied d s l m b) (bytes_in_eight (n / 8))

-- `memmove` writes a copy of the bytes as they were, and nothing else, however the ranges overlap.
pub memmove_copies : (d s n : ℕ) (m : Memory) (a : ℕ) → memmove d s n m a ≡ copied d s n m a
unfolding memmove
memmove_copies d s n m a = elim (Bool-cases (d == s || n == 0)) [
  | inl nothing ↦ ground arith
  | inr some_bytes ↦ elim (Bool-cases (ltb d s || leb (s + n) d)) [
    | inl up ↦ ground (arith, some_bytes, up, memcpy_copies d s n m a)
    | inr down ↦ ground (arith, some_bytes, down, copy_down_copies n d s m a)
  ]
]

-- The byte that `strcpy` writes first is none of those that it has yet to read.
unread :
    (len d src i : ℕ) (m : Memory)
    → UpwardsSafe d src (suc len + 1)
    → i ≤ len
    → update m d (m src) (suc src + i) ≡ m (src + suc i)
unread len d src i m (inl low) h = ground arith
unread len d src i m (inr apart) h = ground arith

one_byte_more :
    (len d src : ℕ) (m : Memory) (a : ℕ)
    → UpwardsSafe d src (suc len + 1)
    → copied (suc d) (suc src) (len + 1) (update m d (m src)) a ≡ copied d src (suc len + 1) m a
one_byte_more len d src m a safe = elim (Bool-cases (within (suc d) (len + 1) a)) [
  | inl behind ↦ ground (arith, behind, unread len d src (a - suc d) m safe)
  | inr other ↦ ground (arith, other)
]

strcpy_more :
    (fuel d src : ℕ) (m : Memory)
    → m src ≢ 0
    → strcpy (suc fuel) d src m ≡ strcpy fuel (suc d) (suc src) (update m d (m src))
unfolding strcpy
strcpy_more fuel d src m more = ground (arith, more)

one_on : (d s n : ℕ) → UpwardsSafe d s (suc n) → UpwardsSafe (suc d) (suc s) n
one_on d s n (inl low) = inl (omega arith)
one_on d s n (inr apart) = inr (omega arith)

-- `strcpy` of a string of `len` bytes ends and copies the string with its NUL and nothing else, if the
-- target starts no higher than the string or behind its NUL.
pub strcpy_copies :
    (len d src : ℕ) (m : Memory)
    → ((i : ℕ) → i < len → m (src + i) ≢ 0)
    → m (src + len) ≡ 0
    → UpwardsSafe d src (len + 1)
    → (m' : Memory) × (strcpy (suc len) d src m ≡ some m')
      × ((a : ℕ) → m' a ≡ copied d src (len + 1) m a)
unfolding strcpy
strcpy_copies zero d src m text ends safe =
    (update m d (m src), ground (arith, ends), λ a. ground arith)
strcpy_copies (suc len) d src m text ends safe =
    let (m', ran, all) =
      strcpy_copies len (suc d) (suc src) (update m d (m src))
        (λ i h z. text (suc i) (omega arith) (sym (unread len d src i m safe (omega arith)) ∙ z))
        (unread len d src len m safe (omega arith) ∙ ends)
        (one_on d src (len + 1) (subst (UpwardsSafe d src) (omega arith) safe)) in
    (
      m',
      strcpy_more (suc len) d src m (λ z. text 0 (omega arith) (ground arith)) ∙ ran,
      λ a. all a ∙ one_byte_more len d src m a safe,
    )
