-- ===== src/Pmm/Frames.antt =====
-- src/kernel/pmm.c: the frames that the first `n` entries of `free_stack` stand for, last entry
-- first, and why there can be no more of them than frames.
use zoho_os.Prelude.{
  ℕ, zero, suc, ◌/◌, ◌%◌, ◌≤◌, ◌<◌, ◌≡◌, refl, ap, true, false, List, [], ◌∷◌, arith, ◌==◌,
  if◌then◌else◌, update, length, has, Distinct,
}
use zoho_os.Pmm.{page_size}

abbrev pub stack_frames : (ℕ → ℕ) → ℕ → List ℕ
stack_frames s zero = []
stack_frames s (suc n) = (s n / page_size) ∷ stack_frames s n

-- Every one of the first `n` entries is the start of a frame.
abbrev pub Aligned : (ℕ → ℕ) → ℕ → Type 0
Aligned s zero = Unit {0}
Aligned s (suc n) = (s n % page_size ≡ 0) × Aligned s n

pub length-stack_frames : (s : ℕ → ℕ) (n : ℕ) → length (stack_frames s n) ≡ n
length-stack_frames s zero = refl
length-stack_frames s (suc n) = ap suc (length-stack_frames s n)

-- A write at or above the top is not seen below it.
pub stack_frames-update :
    (s : ℕ → ℕ) (n i v : ℕ) → n ≤ i → stack_frames (update s i v) n ≡ stack_frames s n
stack_frames-update s zero i v h = refl
stack_frames-update s (suc n) i v h = ground (arith, stack_frames-update s n i v)

pub Aligned-update : (s : ℕ → ℕ) (n i v : ℕ) → n ≤ i → Aligned s n → Aligned (update s i v) n
Aligned-update s zero i v h a = tt
Aligned-update s (suc n) i v h a = ground (arith, Aligned-update s n i v)

pub stack_frames-push :
    (s : ℕ → ℕ) (n v : ℕ) → stack_frames (update s n v) (suc n) ≡ (v / page_size) ∷ stack_frames s n
stack_frames-push s n v = ground (arith, stack_frames-update s n n v)

pub Aligned-push :
    (s : ℕ → ℕ) (n v : ℕ) → v % page_size ≡ 0 → Aligned s n → Aligned (update s n v) (suc n)
Aligned-push s n v h a = ground (arith, Aligned-update s n n v)

-- Every member is below `n`.
abbrev pub Below : ℕ → List ℕ → Type 0
Below n xs = (a : ℕ) → has a xs ≡ true → a < n

without : ℕ → List ℕ → List ℕ
without a [] = []
without a (x ∷ xs) = if x == a then without a xs else x ∷ without a xs

has-without : (b a : ℕ) (xs : List ℕ) → has b (without a xs) ≡ (if b == a then false else has b xs)
unfolding without
has-without b a [] = ground arith
has-without b a (x ∷ xs) = ground (arith, has-without b a xs)

without_absent : (a : ℕ) (xs : List ℕ) → has a xs ≡ false → length (without a xs) ≡ length xs
unfolding without
without_absent a [] h = refl
without_absent a (x ∷ xs) h = ground (arith, without_absent a xs)

length-without : (a : ℕ) (xs : List ℕ) → Distinct xs → length xs ≤ suc (length (without a xs))
unfolding without
length-without a [] d = omega arith
length-without a (x ∷ xs) d = ground (arith, length-without a xs, without_absent a xs)

Distinct-without : (a : ℕ) (xs : List ℕ) → Distinct xs → Distinct (without a xs)
unfolding without
Distinct-without a [] d = tt
Distinct-without a (x ∷ xs) d = ground (arith, Distinct-without a xs, has-without x a xs)

-- Pigeonhole: distinct numbers below `n` are at most `n`.
pub length-le_of_Below : (n : ℕ) (xs : List ℕ) → Distinct xs → Below n xs → length xs ≤ n
length-le_of_Below zero [] d b = omega arith
length-le_of_Below zero (x ∷ xs) d b = absurd (omega (arith, b x (ground arith)))
length-le_of_Below (suc n) xs d b = omega (
  arith,
  length-without n xs d,
  length-le_of_Below n (without n xs) (Distinct-without n xs d) smaller,
)
  where
    smaller : Below n (without n xs)
    smaller a h = ground (arith, has-without a n xs, b a)
