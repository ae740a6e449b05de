-- ===== src/Bytes/Compare.antt =====
-- src/kernel/string.c: what the comparisons return, and the length of a string.
use zoho_os.Prelude.{
  ℕ, zero, suc, ◌+◌, ◌<◌, ◌≡◌, ◌≢◌, refl, ap, sym, ◌∙◌, true, some, arith, ◌==◌, inl, inr, ◌⊎◌,
  ℕ_discrete, ==_of_ne,
}
use zoho_os.Bytes.{Memory, ℤ, pos, difference, memcmp, strcmp, strlen_from, strlen}

-- The ranges of `n` bytes at `p` and at `q` hold the same bytes.
abbrev pub Agree : ℕ → ℕ → ℕ → Memory → Type 0
Agree p q n m = (i : ℕ) → i < n → m (p + i) ≡ m (q + i)

-- `memcmp` by the first place where the ranges differ, if there is one.
pub data Compared (p q n : ℕ) (m : Memory) : ℤ → Type 0 where
  same : {r : ℤ} → Agree p q n m → r ≡ pos 0 → Compared p q n m r
  differ :
      {r : ℤ} (i : ℕ)
      → i < n
      → Agree p q i m
      → m (p + i) ≢ m (q + i)
      → r ≡ difference (m (p + i)) (m (q + i))
      → Compared p q n m r

shift : (m : Memory) (p i : ℕ) → m (suc p + i) ≡ m (p + suc i)
shift m p i = ap m (omega arith)

at0 : (m : Memory) (p : ℕ) → m p ≡ m (p + 0)
at0 m p = ap m (omega arith)

Agree-more : (p q n : ℕ) (m : Memory) → m p ≡ m q → Agree (suc p) (suc q) n m → Agree p q (suc n) m
Agree-more p q n m e h zero k = ground (arith, e)
Agree-more p q n m e h (suc i) k = ground (arith, h i)

Compared-more :
    (p q n : ℕ) (m : Memory) (r : ℤ)
    → m p ≡ m q
    → Compared (suc p) (suc q) n m r
    → Compared p q (suc n) m r
Compared-more p q n m r e (same h z) = same (Agree-more p q n m e h) z
Compared-more p q n m r e (differ i k h ne z) =
    differ (suc i) (omega arith) (Agree-more p q i m e h)
      (λ f. ne (shift m p i ∙ f ∙ sym (shift m q i)))
      (z ∙ λ j. difference (shift m p i j) (shift m q i j))

equal_bytes : (p q : ℕ) (m : Memory) → m p ≡ m q → (m p == m q) ≡ true
equal_bytes p q m e = ground (arith, e)

-- `memcmp` returns 0 if the ranges agree, else the difference of the first two bytes that differ.
pub memcmp-Compared : (n p q : ℕ) (m : Memory) → Compared p q n m (memcmp p q n m)
unfolding memcmp
memcmp-Compared zero p q m = same (λ i h. absurd (omega arith)) refl
memcmp-Compared (suc n) p q m = elim (ℕ_discrete (m p) (m q)) [
  | yes e ↦
      rw (equal_bytes p q m e) (Compared-more p q n m _ e (memcmp-Compared n (suc p) (suc q) m))
  | no ne ↦ rw (==_of_ne (m p) (m q) ne) (
      differ 0 (omega arith) (λ i h. absurd (omega arith)) (λ f. ne (ground (arith, f)))
        (λ j. difference (at0 m p j) (at0 m q j)))
]

strlen_from_more :
    (fuel s len : ℕ) (m : Memory)
    → m (s + len) ≢ 0
    → strlen_from (suc fuel) s len m ≡ strlen_from fuel s (len + 1) m
unfolding strlen_from
strlen_from_more fuel s len m more = ground (arith, more)

strlen_from_first_nul :
    (left s done : ℕ) (m : Memory)
    → ((i : ℕ) → i < left → m (s + (done + i)) ≢ 0)
    → m (s + (done + left)) ≡ 0
    → strlen_from (suc left) s done m ≡ some (done + left)
unfolding strlen_from
strlen_from_first_nul zero s done m text ends = ground (arith, ends)
strlen_from_first_nul (suc left) s done m text ends =
    strlen_from_more (suc left) s done m (λ z. text 0 (omega arith) (ap m (omega arith) ∙ z))
    ∙ strlen_from_first_nul left s (done + 1) m
        (λ i h z. text (suc i) (omega arith) (ap m (omega arith) ∙ z)) (ap m (omega arith) ∙ ends)
    ∙ ap some (omega arith)

-- With fuel for the bytes and the NUL, `strlen` ends with the number of bytes before the first NUL.
pub strlen_first_nul :
    (len s : ℕ) (m : Memory)
    → ((i : ℕ) → i < len → m (s + i) ≢ 0)
    → m (s + len) ≡ 0
    → strlen (suc len) s m ≡ some len
unfolding strlen
strlen_first_nul len s m text ends =
    strlen_from_first_nul len s 0 m (λ i h z. text i h (ap m (omega arith) ∙ z))
      (ap m (omega arith) ∙ ends)
    ∙ ap some (omega arith)

strcmp_more :
    (fuel p q : ℕ) (m : Memory)
    → m p ≢ 0
    → m p ≡ m q
    → strcmp (suc fuel) p q m ≡ strcmp fuel (suc p) (suc q) m
unfolding strcmp
strcmp_more fuel p q m more e = ground (arith, more, e)

-- If two strings agree on their first `n` bytes, none of them NUL, and the first of them ends there
-- or they differ there, `strcmp` ends with the difference of the bytes there.
pub strcmp_first_difference :
    (n p q : ℕ) (m : Memory)
    → Agree p q n m
    → ((i : ℕ) → i < n → m (p + i) ≢ 0)
    → (m (p + n) ≡ 0) ⊎ (m (p + n) ≢ m (q + n))
    → strcmp (suc n) p q m ≡ some (difference (m (p + n)) (m (q + n)))
unfolding strcmp
strcmp_first_difference zero p q m agree text (inl ends) = ground (arith, ends)
strcmp_first_difference zero p q m agree text (inr differs) = ground (arith, differs)
strcmp_first_difference (suc n) p q m agree text last =
    strcmp_more (suc n) p q m (λ z. text 0 (omega arith) (sym (at0 m p) ∙ z))
      (at0 m p ∙ agree 0 (omega arith) ∙ sym (at0 m q))
    ∙ strcmp_first_difference n (suc p) (suc q) m
        (λ i h. shift m p i ∙ agree (suc i) (omega arith) ∙ sym (shift m q i))
        (λ i h z. text (suc i) (omega arith) (sym (shift m p i) ∙ z))
        (elim last [
          | inl ends ↦ inl (shift m p n ∙ ends)
          | inr differs ↦ inr (λ e. differs (sym (shift m p n) ∙ e ∙ shift m q n))
        ])
    ∙ ap some (λ j. difference (shift m p n j) (shift m q n j))
