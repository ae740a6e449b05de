-- ===== src/Lock.antt =====
-- src/kernel/lock.c: the spin lock, on any number of CPUs that take steps in any order.
-- Each atomic instruction is one step. Which CPU takes the next step is a list of CPUs, so every
-- interleaving is such a list.
pub mod Registry
pub mod Exclusion
pub mod Progress
mod Tests
use zoho_os.Prelude.{
  ℕ, zero, suc, ◌+◌, ◌%◌, ◌^◌, Bool, true, false, List, [], ◌∷◌, arith, ◌==◌, if◌then◌else◌, update,
}

-- The fields of `spinlock_t` that the code writes.
pub record Spinlock : Type 0 where
  pub locked : ℕ
  pub acquisitions : ℕ
  pub contentions : ℕ
  pub spin_loops : ℕ

-- Where a CPU is: before the test-and-set with its `spins` so far, at one of the three counters,
-- between the two functions with the lock in hand, or elsewhere.
pub data Place : Type 0 where
  outside : Place
  testing at_acquisitions at_contentions at_spin_loops : ℕ → Place
  holding : Place

pub record Cpus : Type 0 where
  pub lock : Spinlock
  pub places : ℕ → Place

abbrev pub word64 : ℕ → ℕ
word64 n = n % 2 ^ 64

move : ℕ → Place → Spinlock → Cpus → Cpus
move i p l c = record { lock = l; places = update c.places i p }

-- The atomic step of `spin_lock` or `spin_unlock` at a place.
step_at : Place → ℕ → Cpus → Cpus
unfolding move
step_at outside i c = move i (testing 0) c.lock c
step_at (testing spins) i c =
    move i (if c.lock.locked == 0 then at_acquisitions spins else testing (word64 (spins + 1)))
      (record c.lock { locked = 1 }) c
step_at (at_acquisitions spins) i c =
    move i (if spins == 0 then holding else at_contentions spins)
      (record c.lock { acquisitions = word64 (c.lock.acquisitions + 1) }) c
step_at (at_contentions spins) i c =
    move i (at_spin_loops spins) (record c.lock { contentions = word64 (c.lock.contentions + 1) }) c
step_at (at_spin_loops spins) i c =
    move i holding (record c.lock { spin_loops = word64 (c.lock.spin_loops + spins) }) c
step_at holding i c = move i outside (record c.lock { locked = 0 }) c

-- CPU `i` takes a step: a call of `spin_lock` if it is outside, one of `spin_unlock` if it holds the
-- lock, and the next instruction of `spin_lock` otherwise.
unfoldable pub step : ℕ → Cpus → Cpus
unfolding step_at
step i c = step_at (c.places i) i c

unfoldable pub run : List ℕ → Cpus → Cpus
run [] c = c
run (i ∷ is) c = run is (step i c)

-- `spin_init_named`
abbrev pub spin_init : Spinlock
spin_init = record { locked = 0; acquisitions = 0; contentions = 0; spin_loops = 0 }
