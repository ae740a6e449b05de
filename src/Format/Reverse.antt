-- ===== src/Format/Reverse.antt =====
-- src/kernel/printf.c: `reverse` turns a text around in place.
use zoho_os.Prelude.{
  ℕ, zero, suc, ◌+◌, ◌-◌, ◌≤◌, ◌<◌, ◌≡◌, ◌≢◌, ap, ◌∙◌, ◌&&◌, Option, none, some, arith, ◌==◌, ltb,
  leb, if◌then◌else◌, update, Bool-cases, inl, inr,
}
use zoho_os.Bytes.{Memory, strlen, strlen_from}
use zoho_os.Format.{reverse_from, reverse}

-- The loop exchanges the bytes at the same distance from the two ends.
pub reverse_from_lem :
    (fuel i j a : ℕ) (s : Memory)
    → j < i + fuel + fuel
    → reverse_from fuel i j s a ≡ (if leb i a && leb a j then s (i + j - a) else s a)
unfolding reverse_from
reverse_from_lem zero i j a s h = ground arith
reverse_from_lem (suc fuel) i j a s h = elim (Bool-cases (ltb i j)) [
  | inl t ↦
      let further =
        reverse_from_lem fuel (i + 1) (j - 1) a (update (update s i (s j)) j (s i))
          (ground (arith, t)) in
      ground (arith, t, further)
  | inr t ↦ ground (arith, t)
]

-- The byte 0 ends the text at index `k`, and not before.
pub record EndsAt (s : Memory) (k : ℕ) : Type 0 where
  pub end : s k ≡ 0
  pub before : (i : ℕ) → i < k → s i ≢ 0

strlen_from_ends :
    (fuel len k : ℕ) (s : Memory)
    → EndsAt s k
    → len ≤ k
    → k < len + fuel
    → strlen_from fuel 0 len s ≡ some k
unfolding strlen_from
strlen_from_ends zero len k s e l h = absurd (omega arith)
strlen_from_ends (suc fuel) len k s e l h = elim (Bool-cases (len == k)) [
  | inl t ↦ ground (arith, t, e.end)
  | inr t ↦
      let further = strlen_from_ends fuel (len + 1) k s e (ground (arith, t)) (omega arith) in
      ground (arith, t, further, e.before len)
]

-- A text of at most 64 bytes is turned around.
pub reverse_lem :
    (s : Memory) (k a : ℕ)
    → EndsAt s k
    → k ≤ 64
    → reverse s a ≡ (if ltb a k then s (k - 1 - a) else s a)
unfolding reverse strlen
reverse_lem s k a e h =
    ap
      (λ (o : Option ℕ).
        (elim o as (λ x. Memory) [ none ↦ s | some len ↦ reverse_from len 0 (len - 1) s ]) a)
      (strlen_from_ends 65 0 k s e (omega arith) (omega arith))
    ∙ by_cases k a h
  where
    by_cases :
        (k a : ℕ) → k ≤ 64 → reverse_from k 0 (k - 1) s a ≡ (if ltb a k then s (k - 1 - a) else s a)
    by_cases zero a h = ground arith
    by_cases (suc k) a h = ground (arith, reverse_from_lem (suc k) 0 k a s (omega arith))
