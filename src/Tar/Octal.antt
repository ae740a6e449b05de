-- ===== src/Tar/Octal.antt =====
-- src/kernel/tar.c: `octal_to_int` reads what an archiver writes.
use zoho_os.Prelude.{
  ℕ, zero, suc, ◌+◌, ◌-◌, ◌*◌, ◌/◌, ◌%◌, ◌^◌, ◌≤◌, ◌<◌, ◌⊎◌, bit_or, ◌≡◌, refl, ap, ◌∙◌, arith,
  ◌==◌, if◌then◌else◌, inl, inr, ℕ_discrete, ltb, ◌||◌, Bool-cases,
}
use native.Mathlib.Nat.{pow-suc}
use zoho_os.Bits.Fields.{bit_or-add}
use zoho_os.Tar.{word32, octal_from, octal_to_int}

-- `n` in `width` octal digits, the last of them at `width - 1`, and then the end of the field.
abbrev pub octal_digits : ℕ → ℕ → ℕ → ℕ
octal_digits zero n i = 0
octal_digits (suc width) n i = if i == width then b'0' + n % 8 else octal_digits width (n / 8) i

abbrev Digit : ℕ → Type 0
Digit c = (b'0' ≤ c) × (c ≤ b'7')

-- The number that the first `k` digits go on to, from `res`.
octal_value : ℕ → (ℕ → ℕ) → ℕ → ℕ
octal_value zero oct res = res
octal_value (suc k) oct res = octal_value k (λ i. oct (suc i)) (res * 8 + (oct 0 - b'0'))

push_digit : (res d : ℕ) → d < 8 → bit_or (word32 (res * 8)) d ≡ word32 (res * 8 + d)
push_digit res d h = ap (λ (x : ℕ). bit_or x d) high ∙ bit_or-add 3 (res % 2 ^ 29) d h ∙ omega arith
  where
    high : word32 (res * 8) ≡ res % 2 ^ 29 * 8
    high = omega arith

value_wraps :
    (k : ℕ) (oct : ℕ → ℕ) (a b : ℕ)
    → word32 a ≡ word32 b
    → word32 (octal_value k oct a) ≡ word32 (octal_value k oct b)
unfolding octal_value
value_wraps zero oct a b h = h
value_wraps (suc k) oct a b h = value_wraps k (λ i. oct (suc i)) _ _ (omega arith)

value_last :
    (k : ℕ) (oct : ℕ → ℕ) (res : ℕ)
    → octal_value (suc k) oct res ≡ octal_value k oct res * 8 + (oct k - b'0')
unfolding octal_value
value_last zero oct res = refl
value_last (suc k) oct res = value_last k (λ i. oct (suc i)) _

-- The loop reads `k` digits that end there, by its bound or by what follows.
octal_from_digits :
    (k left : ℕ) (oct : ℕ → ℕ) (res : ℕ)
    → ((i : ℕ) → i < k → Digit (oct i))
    → (k ≡ left) ⊎ ((k < left) × (oct k < b'0'))
    → res < 2 ^ 32
    → octal_from left oct res ≡ word32 (octal_value k oct res)
unfolding octal_from octal_value
octal_from_digits zero zero oct res d e h = omega arith
octal_from_digits zero (suc left) oct res d (inl e) h = absurd (omega arith)
octal_from_digits zero (suc left) oct res d (inr e) h = ground arith
octal_from_digits (suc k) zero oct res d (inl e) h = absurd (omega arith)
octal_from_digits (suc k) zero oct res d (inr e) h = absurd (omega arith)
octal_from_digits (suc k) (suc left) oct res d e h = ground (
  arith,
  d 0,
  push_digit res (oct 0 - b'0'),
  octal_from_digits k left (λ i. oct (suc i)) (word32 (res * 8 + (oct 0 - b'0')))
      (λ i l. d (suc i) (omega arith))
      (elim e [ inl full ↦ inl (omega arith) | inr ended ↦ inr (omega arith) ]) (omega arith),
  value_wraps k (λ i. oct (suc i)) (word32 (res * 8 + (oct 0 - b'0'))) (res * 8 + (oct 0 - b'0'))
      (omega arith),
)

digits-Digit : (width n i : ℕ) → i < width → Digit (octal_digits width n i)
digits-Digit zero n i h = absurd (omega arith)
digits-Digit (suc width) n i h = ground (arith, digits-Digit width (n / 8) i)

digits_end : (width n : ℕ) → octal_digits width n width ≡ 0
digits_end width n = beyond width n width (omega arith)
  where
    beyond : (w n i : ℕ) → w ≤ i → octal_digits w n i ≡ 0
    beyond zero n i h = refl
    beyond (suc w) n i h = ground (arith, beyond w (n / 8) i)

value_of_digits :
    (width n : ℕ) (oct : ℕ → ℕ)
    → n < 8 ^ width
    → ((i : ℕ) → i < width → oct i ≡ octal_digits width n i)
    → octal_value width oct 0 ≡ n
unfolding octal_value
value_of_digits zero n oct h e = omega arith
value_of_digits (suc k) n oct h e =
    value_last k oct 0
    ∙ omega (
      arith,
      value_of_digits k (n / 8) oct (omega (arith, pow-suc 8 k))
          (λ i l. e i (omega arith) ∙ ground arith),
      e k (omega arith) ∙ top,
    )
  where
    top : octal_digits (suc k) n k ≡ b'0' + n % 8
    top = ground arith

-- `octal_to_int` reads back a size that is written in at most eleven octal digits before a NUL, up to
-- the wrap-around of 32 bits.
pub octal_to_int-octal_digits :
    (width n : ℕ) → width ≤ 11 → n < 8 ^ width → octal_to_int (octal_digits width n) ≡ word32 n
unfolding octal_to_int
octal_to_int-octal_digits width n w h =
    octal_from_digits width 11 (octal_digits width n) 0 (digits-Digit width n) ends (omega arith)
    ∙ ap word32 (value_of_digits width n (octal_digits width n) h (λ i l. refl))
  where
    ends : (width ≡ 11) ⊎ ((width < 11) × (octal_digits width n width < b'0'))
    ends = elim (ℕ_discrete width 11) [
      | yes full ↦ inl full
      | no short ↦ inr (omega arith, omega (arith, digits_end width n))
    ]

octal_from_bound :
    (left : ℕ) (oct : ℕ → ℕ) (res : ℕ) → res < 2 ^ 32 → octal_from left oct res < 2 ^ 32
unfolding octal_from
octal_from_bound zero oct res h = h
octal_from_bound (suc left) oct res h = elim (Bool-cases (ltb (oct 0) b'0' || ltb b'7' (oct 0))) [
  | inl stop ↦ rw stop h
  | inr go ↦
      let digit : oct 0 - b'0' < 8 = ground (arith, go) in
      rw go (
        octal_from_bound left (λ i. oct (suc i)) _
          (omega (arith, push_digit res (oct 0 - b'0') digit)))
]

-- What is read is a number of 32 bits.
pub octal_to_int_bound : (oct : ℕ → ℕ) → octal_to_int oct < 2 ^ 32
unfolding octal_to_int
octal_to_int_bound oct = octal_from_bound 11 oct 0 (omega arith)
