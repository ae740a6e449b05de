-- ===== src/Bytes/Fill.antt =====
-- src/kernel/string.c: what `memset` writes.
use zoho_os.Prelude.{
  ℕ, zero, suc, ◌+◌, ◌-◌, ◌*◌, ◌/◌, ◌%◌, ◌^◌, bit_or, ◌≤◌, ◌<◌, ◌≡◌, ap, ◌∙◌, arith, if◌then◌else◌,
  Bool-cases, inl, inr,
}
use zoho_os.Bits.Fields.{bit_or-add}
use zoho_os.Bytes.Copy.{bytes_in, bytes_in_eight, bytes_in_one}
use zoho_os.Bytes.{Memory, within, stored, rep_stos, doubled, memset}

doubled_lem :
    (shift x : ℕ) → x * 2 ^ shift < 2 ^ 64 → x < 2 ^ shift → doubled shift x ≡ x * 2 ^ shift + x
unfolding doubled
doubled_lem shift x h l =
    ap (λ (y : ℕ). bit_or y x) {x = x * 2 ^ shift % 2 ^ 64} {y = x * 2 ^ shift} (omega (arith, h))
    ∙ bit_or-add shift x x l

-- The byte that is written, eight times over.
eightfold : (b : ℕ) → b < 2 ^ 8 → doubled 32 (doubled 16 (doubled 8 b)) ≡ b * 0x0101010101010101
eightfold b h =
    ap (λ x. doubled 32 (doubled 16 x)) (doubled_lem 8 b (omega arith) (omega arith))
    ∙ ap (doubled 32) (doubled_lem 16 (b * 2 ^ 8 + b) (omega arith) (omega arith))
    ∙ doubled_lem 32 ((b * 2 ^ 8 + b) * 2 ^ 16 + (b * 2 ^ 8 + b)) (omega arith) (omega arith)
    ∙ omega arith

byte_of : (b k : ℕ) → b < 2 ^ 8 → k < 8 → b * 0x0101010101010101 / 2 ^ (8 * k) % 2 ^ 8 ≡ b
byte_of b zero h l = omega arith
byte_of b (suc zero) h l = omega arith
byte_of b (suc (suc zero)) h l = omega arith
byte_of b (suc (suc (suc zero))) h l = omega arith
byte_of b (suc (suc (suc (suc zero)))) h l = omega arith
byte_of b (suc (suc (suc (suc (suc zero))))) h l = omega arith
byte_of b (suc (suc (suc (suc (suc (suc zero)))))) h l = omega arith
byte_of b (suc (suc (suc (suc (suc (suc (suc zero))))))) h l = omega arith
byte_of b (suc (suc (suc (suc (suc (suc (suc (suc k)))))))) h l = absurd (omega arith)

-- The bytes of a range have a value, and all others stay.
abbrev pub filled : ℕ → ℕ → ℕ → Memory → Memory
filled d b size m a = if within d size a then b else m a

one_unit :
    (width rest d b a : ℕ) (m : Memory)
    → b < 2 ^ 8
    → width ≤ 8
    → filled (d + width) b rest (stored d width (b * 0x0101010101010101) m) a
      ≡ filled d b (width + rest) m a
one_unit width rest d b a m h w = elim (Bool-cases (within d width a)) [
  | inl t ↦
      let here : a - d < 8 = ground (arith, t, w) in
      let byte = byte_of b (a - d) h here in ground (arith, t, byte)
  | inr t ↦ ground (arith, t)
]

rep_stos_fills :
    (width count d b a : ℕ) (m : Memory)
    → b < 2 ^ 8
    → width ≤ 8
    → rep_stos width count d (b * 0x0101010101010101) m a ≡ filled d b (bytes_in width count) m a
unfolding rep_stos bytes_in
rep_stos_fills width zero d b a m h w = ground arith
rep_stos_fills width (suc count) d b a m h w =
    rep_stos_fills width count (d + width) b a (stored d width (b * 0x0101010101010101) m) h w
    ∙ one_unit width (bytes_in width count) d b a m h w

-- `memset` writes the low byte of its value into the bytes of the range, and nothing else.
pub memset_fills : (s c n a : ℕ) (m : Memory) → memset s c n m a ≡ filled s (c % 2 ^ 8) n m a
unfolding memset
memset_fills s c n a m =
    let b = c % 2 ^ 8 in
    let quads = bytes_in_eight (n / 8) in
    let last = bytes_in_one (n % 8) in
    let val = b * 0x0101010101010101 in
    ap (λ v. rep_stos 1 (n % 8) (s + 8 * (n / 8)) v (rep_stos 8 (n / 8) s v m) a)
      (eightfold b (omega arith))
    ∙ rep_stos_fills 1 (n % 8) (s + 8 * (n / 8)) b a (rep_stos 8 (n / 8) s val m) (omega arith)
        (omega arith)
    ∙ (λ i.
        filled (s + 8 * (n / 8)) b (last i)
          (λ x. rep_stos_fills 8 (n / 8) s b x m (omega arith) (omega arith) i) a)
    ∙ (λ i. filled (s + 8 * (n / 8)) b (n % 8) (filled s b (quads i) m) a)
    ∙ ground arith
