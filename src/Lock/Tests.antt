-- ===== src/Lock/Tests.antt =====
-- src/kernel/lock.c: the theorems of the lock at concrete states, and runs of its code.
use zoho_os.Prelude.{arith, true, ℕ, ◌≡◌, refl, false, List, [], ◌∷◌}
use zoho_os.Lock.{step_at, step, run, move}
use zoho_os.Lock.Progress.{run_enters}
use zoho_os.Lock.Exclusion.{inside, fresh, run-Exclusive}

-- CPU 3 takes the lock, and CPU 5 tests it twice in vain.
abbrev contended : List ℕ
contended = 5 ∷ 3 ∷ 3 ∷ 5 ∷ 3 ∷ 5 ∷ []

five_spins : inside ((run contended fresh).places 5) ≡ false
unfolding run step step_at move
five_spins = refl

run-Exclusive_example : (◌≡◌ {A = ℕ} 3 3) × ((run contended fresh).lock.locked ≡ 1)
unfolding run step step_at move
run-Exclusive_example = run-Exclusive contended 3 3 refl refl

run_enters_example : inside ((step 5 (run (5 ∷ []) fresh)).places 5) ≡ true
unfolding run step step_at move
run_enters_example = run_enters (5 ∷ []) 5 0 (λ j. ground arith) refl
