-- ===== src/Format/Digits.antt =====
-- src/kernel/printf.c: `itoa` against the usual way to write a number, its last digit behind the others.
use zoho_os.Prelude.{
  ℕ, zero, suc, ◌+◌, ◌-◌, ◌*◌, ◌/◌, ◌%◌, ◌^◌, ◌≤◌, ◌<◌, ◌≡◌, ◌≢◌, refl, sym, ap, ◌∙◌, subst, ◌⊎◌,
  inl, inr, ◌&&◌, List, [], ◌∷◌, ◌++◌, length, length-append, arith, ◌==◌, ltb, leb, if◌then◌else◌,
  update, Bool-cases,
}
use native.Mathlib.Nat.{pow-suc}
use zoho_os.Bytes.{Memory}
use zoho_os.Format.{char_of, put_digits, reverse, itoa}
use zoho_os.Format.Reverse.{EndsAt, reverse_lem}

abbrev pub nth : List ℕ → ℕ → ℕ
nth [] i = 0
nth (x ∷ rest) zero = x
nth (x ∷ rest) (suc i) = nth rest i

nth_cons : (x d : ℕ) (rest : List ℕ) → nth (x ∷ rest) d ≡ (if d == 0 then x else nth rest (d - 1))
nth_cons x zero rest = refl
nth_cons x (suc d) rest = ground arith

nth-append :
    (xs : List ℕ) (c i : ℕ)
    → nth (xs ++ c ∷ []) i
      ≡ (if ltb i (length xs) then nth xs i else if i == length xs then c else 0)
nth-append [] c zero = refl
nth-append [] c (suc i) = ground arith
nth-append (x ∷ rest) c zero = ground arith
nth-append (x ∷ rest) c (suc i) = ground (arith, nth-append rest c i)

-- The digits of a number, the last one first, as the loop puts them.
unfoldable low : ℕ → ℕ → ℕ → List ℕ
low zero base n = []
low (suc fuel) base n =
    let rest = low fuel base (n / base) in if n == 0 then [] else char_of (n % base) ∷ rest

-- The digits of a number, as they are read.
unfoldable pub numeral : ℕ → ℕ → ℕ → List ℕ
numeral zero base n = []
numeral (suc fuel) base n =
    let rest = numeral fuel base (n / base) in
    if n == 0 then [] else rest ++ char_of (n % base) ∷ []

-- A number as it is written, with its digits in both orders; 0 has a digit.
unfoldable printed_in : ℕ → ℕ → ℕ → List ℕ
printed_in fuel base n = if n == 0 then b'0' ∷ [] else numeral fuel base n

low_printed : ℕ → ℕ → ℕ → List ℕ
low_printed fuel base n = if n == 0 then b'0' ∷ [] else low fuel base n

unfoldable pub printed : ℕ → ℕ → List ℕ
unfolding printed_in
printed base n = printed_in 64 base n

length-low : (fuel base n : ℕ) → length (numeral fuel base n) ≡ length (low fuel base n)
unfolding numeral low
length-low zero base n = refl
length-low (suc fuel) base n = ground (
  arith,
  length-append (numeral fuel base (n / base)) (char_of (n % base) ∷ []),
  length-low fuel base (n / base),
)

length-low_short : (fuel base n : ℕ) → length (low fuel base n) ≤ fuel
unfolding low
length-low_short zero base n = omega arith
length-low_short (suc fuel) base n = ground (arith, length-low_short fuel base (n / base))

low_backwards :
    (fuel base n i : ℕ)
    → i < length (low fuel base n)
    → nth (numeral fuel base n) i ≡ nth (low fuel base n) (length (low fuel base n) - 1 - i)
unfolding numeral low
low_backwards zero base n i h = absurd (omega arith)
low_backwards (suc fuel) base n i h = ground (
  arith,
  h,
  length-low fuel base (n / base),
  nth-append (numeral fuel base (n / base)) (char_of (n % base)) i,
  nth_cons (char_of (n % base)) (length (low fuel base (n / base)) - i) (low fuel base (n / base)),
  low_backwards fuel base (n / base) i,
)

low_nonzero : (fuel base n i : ℕ) → i < length (low fuel base n) → nth (low fuel base n) i ≢ 0
unfolding low
low_nonzero zero base n i h = absurd (omega arith)
low_nonzero (suc fuel) base n zero h = ground (arith, h)
low_nonzero (suc fuel) base n (suc i) h = ground (arith, h, low_nonzero fuel base (n / base) i)

-- Bytes written one behind the other.
abbrev written : ℕ → List ℕ → Memory → Memory
written i [] s = s
written i (c ∷ rest) s = written (i + 1) rest (update s i c)

written_lem :
    (i a : ℕ) (xs : List ℕ) (s : Memory)
    → written i xs s a ≡ (if leb i a && ltb a (i + length xs) then nth xs (a - i) else s a)
written_lem i a [] s = ground arith
written_lem i a (c ∷ rest) s =
    ground (arith, written_lem (i + 1) a rest (update s i c), nth_cons c (a - i) rest)

put_digits-low :
    (fuel n base i : ℕ) (s : Memory)
    → put_digits fuel n base i s ≡ (i + length (low fuel base n), written i (low fuel base n) s)
unfolding put_digits low
put_digits-low zero n base i s = ap (λ (k : ℕ). (k, s)) (omega arith)
put_digits-low (suc fuel) n base i s = elim (Bool-cases (n == 0)) [
  | inl t ↦ rw t (ap (λ (k : ℕ). (k, s)) (omega arith))
  | inr t ↦ rw t (
      put_digits-low fuel (n / base) base (i + 1) (update s i (char_of (n % base)))
      ∙ ap
          (λ (k : ℕ).
            (k, written (i + 1) (low fuel base (n / base)) (update s i (char_of (n % base)))))
          (omega arith))
]

-- The text `xs` at an address: its bytes, none of which is 0, and then a 0.
pub record TextAt (m : Memory) (at' : ℕ) (xs : List ℕ) : Type 0 where
  pub same : (i : ℕ) → i < length xs → m (at' + i) ≡ nth xs i
  pub full : (i : ℕ) → i < length xs → nth xs i ≢ 0
  pub ends : m (at' + length xs) ≡ 0

-- The array before `reverse`.
abbrev put_text : List ℕ → Memory → Memory
put_text xs s = update (written 0 xs s) (length xs) 0

put_text-EndsAt :
    (xs : List ℕ) (s : Memory)
    → ((i : ℕ) → i < length xs → nth xs i ≢ 0)
    → EndsAt (put_text xs s) (length xs)
put_text-EndsAt xs s full = record {
  end = ground arith;
  before = λ i h. ground (arith, h, written_lem 0 i xs s, full i);
}

reverse-TextAt :
    (xs ys : List ℕ) (s : Memory)
    → length ys ≡ length xs
    → length xs ≤ 64
    → ((i : ℕ) → i < length xs → nth xs i ≢ 0)
    → ((i : ℕ) → i < length xs → nth ys i ≡ nth xs (length xs - 1 - i))
    → TextAt (reverse (put_text xs s)) 0 ys
reverse-TextAt xs ys s long short full back =
    let ended = put_text-EndsAt xs s full in
    record {
      same = λ i h. ground (
        arith,
        h,
        reverse_lem (put_text xs s) (length xs) i ended short,
        written_lem 0 (length xs - 1 - i) xs s,
        back i,
      );
      full = λ i h z. full (length xs - 1 - i) (omega arith) (sym (back i (omega arith)) ∙ z);
      ends =
          ap (reverse (put_text xs s)) (omega (arith, long))
          ∙ reverse_lem (put_text xs s) (length xs) (length xs) ended short
          ∙ ground arith;
    }

-- What is in the array before the last 0 is written.
first_digits :
    (fuel n base : ℕ) (s : Memory)
    → (if n == 0 then (1, update s 0 b'0') else put_digits fuel n base 0 s)
      ≡ (length (low_printed fuel base n), written 0 (low_printed fuel base n) s)
unfolding low_printed
first_digits fuel n base s = elim (Bool-cases (n == 0)) [
  | inl t ↦ rw t refl
  | inr t ↦ rw t (
      put_digits-low fuel n base 0 s
      ∙ ap (λ (k : ℕ). (k, written 0 (low fuel base n) s)) (omega arith))
]

itoa_put : (n base : ℕ) (s : Memory) → itoa n s base ≡ reverse (put_text (low_printed 64 base n) s)
unfolding itoa
itoa_put n base s = ap (λ (r : ℕ × Memory). reverse (update r.1 r.0 0)) (first_digits 64 n base s)

printed-TextAt :
    (fuel n base : ℕ) (s : Memory)
    → fuel ≤ 64
    → 1 ≤ fuel
    → TextAt (reverse (put_text (low_printed fuel base n) s)) 0 (printed_in fuel base n)
unfolding printed_in low_printed
printed-TextAt fuel n base s h p = elim (Bool-cases (n == 0)) [
  | inl t ↦ rw t (reverse-TextAt (b'0' ∷ []) (b'0' ∷ []) s refl (omega arith) digit_full digit_back)
  | inr t ↦
      let short = length-low_short fuel base n in
      rw t (
        reverse-TextAt (low fuel base n) (numeral fuel base n) s (length-low fuel base n)
          (omega (arith, short)) (low_nonzero fuel base n) (low_backwards fuel base n))
]
  where
    digit_full : (i : ℕ) → i < 1 → nth (b'0' ∷ []) i ≢ 0
    digit_full zero h = ground arith
    digit_full (suc i) h = absurd (omega arith)

    digit_back : (i : ℕ) → i < 1 → nth (b'0' ∷ []) i ≡ nth (b'0' ∷ []) (1 - 1 - i)
    digit_back zero h = refl
    digit_back (suc i) h = absurd (omega arith)

-- The text that `itoa` leaves is the number as it is written, and fits the array of 65 bytes.
pub itoa-TextAt : (n base : ℕ) (s : Memory) → TextAt (itoa n s base) 0 (printed base n)
unfolding printed
itoa-TextAt n base s =
    rw (itoa_put n base s) (printed-TextAt 64 n base s (omega arith) (omega arith))

-- The number that a text of digits stands for.
abbrev digit_of : ℕ → ℕ
digit_of c = if ltb b'9' c then c - b'a' + 10 else c - b'0'

unfoldable pub value_from : ℕ → ℕ → List ℕ → ℕ
value_from base acc [] = acc
value_from base acc (c ∷ rest) = value_from base (acc * base + digit_of c) rest

value-append :
    (base acc c : ℕ) (xs : List ℕ)
    → value_from base acc (xs ++ c ∷ []) ≡ value_from base acc xs * base + digit_of c
unfolding value_from
value-append base acc c [] = refl
value-append base acc c (x ∷ rest) = value-append base (acc * base + digit_of x) c rest

digit_of-char_of : (d : ℕ) → d < 16 → digit_of (char_of d) ≡ d
digit_of-char_of d h = ground (arith, h)

-- The two bases that the callers use.
abbrev pub IsBase : ℕ → Type 0
IsBase base = (base ≡ 10) ⊎ (base ≡ 16)

-- One step of the division by a base.
abbrev Divides : ℕ → ℕ → ℕ → Type 0
Divides fuel n base = (n / base < 2 ^ fuel) × (n / base * base + n % base ≡ n) × (n % base < 16)

base-Divides : (fuel n base : ℕ) → IsBase base → n < 2 ^ suc fuel → Divides fuel n base
base-Divides fuel n base b h =
    let double : 2 ^ suc fuel ≡ 2 ^ fuel * 2 = pow-suc 2 fuel in
    elim b [
      | inl e ↦ subst (Divides fuel n) (sym e) (omega (arith, double, h), omega arith, omega arith)
      | inr e ↦ subst (Divides fuel n) (sym e) (omega (arith, double, h), omega arith, omega arith)
    ]

numeral_value :
    (fuel base n : ℕ) → IsBase base → n < 2 ^ fuel → value_from base 0 (numeral fuel base n) ≡ n
unfolding numeral value_from
numeral_value zero base n b h = omega (arith, h)
numeral_value (suc fuel) base n b h =
    let step = base-Divides fuel n base b h in
    let further = numeral_value fuel base (n / base) b step.0 in
    let digit = digit_of-char_of (n % base) step.2 in
    elim (Bool-cases (n == 0)) [
      | inl t ↦ rw t (ground (arith, t))
      | inr t ↦ rw t (
          value-append base 0 (char_of (n % base)) (numeral fuel base (n / base))
          ∙ (λ i. further i * base + digit i)
          ∙ step.1)
    ]

-- What `itoa` leaves: a text of at most 64 bytes, which stands for the number.
pub record Printed (base n : ℕ) (s : Memory) : Type 0 where
  pub text : List ℕ
  pub at_start : TextAt s 0 text
  pub short : length text ≤ 64
  pub value : value_from base 0 text ≡ n

printed_value :
    (fuel base n : ℕ) → IsBase base → n < 2 ^ fuel → value_from base 0 (printed_in fuel base n) ≡ n
unfolding printed_in value_from
printed_value fuel base n b h = elim (Bool-cases (n == 0)) [
  | inl t ↦ rw t (ground (arith, t))
  | inr t ↦ rw t (numeral_value fuel base n b h)
]

printed_short : (fuel base n : ℕ) → 1 ≤ fuel → length (printed_in fuel base n) ≤ fuel
unfolding printed_in
printed_short fuel base n p =
    ground (arith, p, length-low fuel base n, length-low_short fuel base n)

-- For a number of 64 bits and base 10 or 16, the text that `itoa` leaves fits the array and its digits
-- stand for the number.
pub itoa-Printed :
    (n base : ℕ) (s : Memory) → IsBase base → n < 2 ^ 64 → Printed base n (itoa n s base)
unfolding printed
itoa-Printed n base s b h = record {
  text = printed base n;
  at_start = itoa-TextAt n base s;
  short = printed_short 64 base n (omega arith);
  value = printed_value 64 base n b h;
}
