-- ===== src/Bits/Step.antt =====
-- `&` and `|` at their lowest digit. The native operations are a recursion on digits with a count
-- of digits to go, which is dropped here.
use Prim.Native.Nat.{digits, bit_and-bitwise, bit_or-bitwise}
use zoho_os.Prelude.{
  ℕ, zero, suc, ◌+◌, ◌*◌, ◌/◌, ◌%◌, ◌≤◌, min, max, bit_and, bit_or, ◌≡◌, refl, ap, arith,
}

-- Two counts that are both enough give the same digits.
counts_agree :
    (last : ℕ → ℕ) (op : ℕ → ℕ → ℕ) (x c d y : ℕ)
    → x ≤ c
    → x ≤ d
    → digits last op c x y ≡ digits last op d x y
counts_agree last op zero zero zero y le_c le_d = refl
counts_agree last op zero zero (suc d) y le_c le_d = refl
counts_agree last op zero (suc c) zero y le_c le_d = refl
counts_agree last op zero (suc c) (suc d) y le_c le_d = refl
counts_agree last op (suc x) zero d y le_c le_d = absurd (omega arith)
counts_agree last op (suc x) (suc c) zero y le_c le_d = absurd (omega arith)
counts_agree last op (suc x) (suc c) (suc d) y le_c le_d =
    ap (λ (high : ℕ). high * 2 + op (suc x % 2) (y % 2))
      (counts_agree last op (suc x / 2) c d (y / 2) (omega arith) (omega arith))

pub bit_or_step : (x y : ℕ) → bit_or x y ≡ bit_or (x / 2) (y / 2) * 2 + max (x % 2) (y % 2)
bit_or_step zero y = simp bit_or-bitwise (omega arith)
bit_or_step (suc x) y = simp bit_or-bitwise (
    ap (λ (high : ℕ). high * 2 + max (suc x % 2) (y % 2))
      (counts_agree (λ r. r) max (suc x / 2) x (suc x / 2) (y / 2) (omega arith) (omega arith)))

pub bit_and_step : (x y : ℕ) → bit_and x y ≡ bit_and (x / 2) (y / 2) * 2 + min (x % 2) (y % 2)
bit_and_step zero y = simp bit_and-bitwise (omega arith)
bit_and_step (suc x) y = simp bit_and-bitwise (
    ap (λ (high : ℕ). high * 2 + min (suc x % 2) (y % 2))
      (counts_agree (λ r. 0) min (suc x / 2) x (suc x / 2) (y / 2) (omega arith) (omega arith)))
