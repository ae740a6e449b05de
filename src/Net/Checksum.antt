-- ===== src/Net/Checksum.antt =====
-- src/kernel/net.c: `net_checksum`, the sum of the 16-bit words in ones' complement.
use zoho_os.Prelude.{
  ℕ, zero, suc, ◌+◌, ◌-◌, ◌*◌, ◌/◌, ◌%◌, ◌^◌, ◌≤◌, ◌<◌, ◌≡◌, refl, ap, ◌∙◌, List, [], ◌∷◌, ◌++◌,
  length, arith, ◌==◌, Bool-cases, inl, inr, Nat-cases, if◌then◌else◌,
}
use zoho_os.Net.{word32}
use zoho_os.Net.Packet.{store16}

-- The loop over the words, with the byte that may be left.
unfoldable pub sum_words : List ℕ → ℕ → ℕ
sum_words [] sum = sum
sum_words (a ∷ []) sum = word32 (sum + a)
sum_words (a ∷ b ∷ rest) sum = sum_words rest (word32 (sum + (a + b * 2 ^ 8)))

-- The loop that adds the carries: after two rounds no sum of 32 bits has a carry left.
unfoldable pub fold_from : ℕ → ℕ → ℕ
fold_from zero sum = sum
fold_from (suc fuel) sum =
    let rest = fold_from fuel (sum % 2 ^ 16 + sum / 2 ^ 16) in
    if (sum / 2 ^ 16) == 0 then sum else rest

unfoldable pub fold_carry : ℕ → ℕ
unfolding fold_from
fold_carry sum = fold_from 2 sum

-- `(uint16_t)~sum`
abbrev pub complement16 : ℕ → ℕ
complement16 sum = 2 ^ 16 - 1 - sum % 2 ^ 16

unfoldable pub net_checksum : List ℕ → ℕ
unfolding sum_words fold_carry
net_checksum bytes = complement16 (fold_carry (sum_words bytes 0))

-- What the fold keeps: the sum up to a multiple of 2 ^ 16 - 1, and whether it is 0.
pub record Folded (sum folded : ℕ) : Type 0 where
  pub small : folded < 2 ^ 16
  pub times : ℕ
  pub same : sum ≡ folded + times * (2 ^ 16 - 1)
  pub is_zero : folded ≡ 0 → sum ≡ 0

fold_round : (sum : ℕ) → sum ≡ sum % 2 ^ 16 + sum / 2 ^ 16 + sum / 2 ^ 16 * (2 ^ 16 - 1)
fold_round sum = omega arith

Folded-once : (sum f : ℕ) → Folded (sum % 2 ^ 16 + sum / 2 ^ 16) f → Folded sum f
Folded-once sum f h = record {
  small = h.small;
  times = h.times + sum / 2 ^ 16;
  same = omega (arith, h.same);
  is_zero = λ z. omega (arith, h.is_zero z);
}

Folded-done : (sum : ℕ) → sum < 2 ^ 16 → Folded sum sum
Folded-done sum h = record { small = h; times = 0; same = omega arith; is_zero = λ z. z }

fold_from-Folded :
    (fuel sum : ℕ)
    → (fuel ≡ 0 → sum < 2 ^ 16)
    → (fuel ≡ 1 → sum < 2 ^ 17 - 1)
    → (fuel ≤ 2)
    → sum < 2 ^ 32
    → Folded sum (fold_from fuel sum)
unfolding fold_from
fold_from-Folded zero sum a b c d = Folded-done sum (a refl)
fold_from-Folded (suc fuel) sum a b c d = elim (Bool-cases ((sum / 2 ^ 16) == 0)) [
  | inl e ↦ rw e (Folded-done sum (ground (arith, e)))
  | inr e ↦
      let next = sum % 2 ^ 16 + sum / 2 ^ 16 in
      rw e (
        Folded-once sum (fold_from fuel next) (
          fold_from-Folded fuel next (λ z. omega (arith, z, b)) (λ z. omega (arith, z, c, d))
            (omega arith) (omega arith)))
]

pub fold_carry-Folded : (sum : ℕ) → sum < 2 ^ 32 → Folded sum (fold_carry sum)
unfolding fold_carry
fold_carry-Folded sum h =
    fold_from-Folded 2 sum (λ z. omega (arith, z)) (λ z. omega (arith, z)) (omega arith) h

-- The sum without wrap-around.
unfoldable pub words : List ℕ → ℕ
words [] = 0
words (a ∷ []) = a
words (a ∷ b ∷ rest) = a + b * 2 ^ 8 + words rest

-- A list of whole words, and a list of bytes.
abbrev pub IsWhole : List ℕ → Type 0
IsWhole [] = Unit {0}
IsWhole (a ∷ []) = ⊥
IsWhole (a ∷ b ∷ rest) = IsWhole rest

abbrev pub AllBytes : List ℕ → Type 0
AllBytes [] = Unit {0}
AllBytes (a ∷ rest) = (a < 2 ^ 8) × AllBytes rest

words-le : (xs : List ℕ) → AllBytes xs → words xs ≤ length xs * (2 ^ 16 - 1)
unfolding words
words-le [] b = omega arith
words-le (a ∷ []) b = omega (arith, b.0)
words-le (a ∷ c ∷ rest) b = omega (arith, b.0, b.1.0, words-le rest b.1.1)

sum_words-words : (xs : List ℕ) (s : ℕ) → s + words xs < 2 ^ 32 → sum_words xs s ≡ s + words xs
unfolding words sum_words
sum_words-words [] s h = omega arith
sum_words-words (a ∷ []) s h = omega (arith, h)
sum_words-words (a ∷ b ∷ rest) s h =
    omega (arith, h, sum_words-words rest (word32 (s + (a + b * 2 ^ 8))) (omega (arith, h)))

words-append : (xs ys : List ℕ) → IsWhole xs → words (xs ++ ys) ≡ words xs + words ys
unfolding words
words-append [] ys w = omega arith
words-append (a ∷ []) ys w = elim w [ ]
words-append (a ∷ b ∷ rest) ys w = omega (arith, words-append rest ys w)

-- The folded sum of bytes with their checksum has all bits set.
fold-complement : (s f g : ℕ) → Folded s f → Folded (s + (2 ^ 16 - 1 - f)) g → g ≡ 2 ^ 16 - 1
fold-complement s f g a b = elim (Nat-cases g) [
  | inl e ↦ absurd (omega (arith, a.small, b.is_zero e, a.is_zero, a.same, e))
  | inr (n, e) ↦ omega (arith, a.small, a.same, b.small, b.same, e)
]

words-filled :
    (before after : List ℕ) (c : ℕ)
    → IsWhole before
    → c < 2 ^ 16
    → words (before ++ (store16 c ++ after)) ≡ words (before ++ 0 ∷ 0 ∷ after) + c
unfolding words
words-filled before after c w h =
    omega
      (arith, h, words-append before (store16 c ++ after) w, words-append before (0 ∷ 0 ∷ after) w)

complement-small : (f : ℕ) → f < 2 ^ 16 → complement16 f ≡ 2 ^ 16 - 1 - f
complement-small f h = omega arith

-- The checksum of fewer than 2 ^ 16 bytes, in the two bytes that were 0, makes the checksum of all the
-- bytes 0, which is how a receiver tests it.
pub net_checksum-filled :
    (before after : List ℕ)
    → IsWhole before
    → AllBytes (before ++ 0 ∷ 0 ∷ after)
    → length (before ++ 0 ∷ 0 ∷ after) < 2 ^ 16
    → net_checksum (before ++ (store16 (net_checksum (before ++ 0 ∷ 0 ∷ after)) ++ after)) ≡ 0
unfolding net_checksum
net_checksum-filled before after w b short =
    let empty = before ++ 0 ∷ 0 ∷ after in
    let s = words empty in
    let bound : s ≤ length empty * (2 ^ 16 - 1) = words-le empty b in
    let e : sum_words empty 0 ≡ s =
      sum_words-words empty 0 (omega (arith, bound, short)) ∙ omega arith in
    let f = fold_carry s in
    let folded = fold_carry-Folded s (omega (arith, bound, short)) in
    let c : complement16 (fold_carry (sum_words empty 0)) ≡ 2 ^ 16 - 1 - f =
      ap (λ x. complement16 (fold_carry x)) e ∙ complement-small f folded.small in
    let filled = before ++ (store16 (2 ^ 16 - 1 - f) ++ after) in
    let t : words filled ≡ s + (2 ^ 16 - 1 - f) =
      words-filled before after (2 ^ 16 - 1 - f) w (omega arith) in
    let u : sum_words filled 0 ≡ s + (2 ^ 16 - 1 - f) =
      sum_words-words filled 0 (omega (arith, t, bound, short)) ∙ omega (arith, t) in
    let again = fold_carry-Folded (s + (2 ^ 16 - 1 - f)) (omega (arith, bound, short)) in
    let g = fold-complement s f (fold_carry (s + (2 ^ 16 - 1 - f))) folded again in
    ap (λ x. complement16 (fold_carry (sum_words (before ++ (store16 x ++ after)) 0))) c
    ∙ ap (λ x. complement16 (fold_carry x)) u
    ∙ ap (λ x. complement16 x) g
