-- ===== src/Task/Choice.antt =====
-- src/kernel/task.c: `pick_least_loaded_cpu`, which places a new task.
use zoho_os.Prelude.{
  ℕ, zero, suc, ◌+◌, ◌-◌, ◌≤◌, ◌<◌, not, ◌&&◌, arith, ◌==◌, ltb, if◌then◌else◌, Bool-cases, inl,
  inr, dec_lt, subst,
}
use zoho_os.Task.{Machine}

-- The tasks in the run queue, and the current one unless it is idle.
unfoldable pub load : Machine → ℕ → ℕ
load m i =
    let c = m.cpus i in
    c.runqueue.count
    + (if not (c.current_task == 0) && not ((m.tasks c.current_task).id == 0) then 1 else 0)

-- The loop from index `i` with `left` CPUs to go; `least` is the best index so far.
unfoldable pub least_from : ℕ → ℕ → ℕ → Machine → ℕ
least_from zero i least m = least
least_from (suc left) i least m =
    least_from left (suc i) (if ltb (load m i) (load m least) then i else least) m

-- The index of the CPU that C returns a pointer to.
unfoldable pub pick_least_loaded_cpu : Machine → ℕ
unfolding least_from
pick_least_loaded_cpu m = least_from (m.cpu_count - 1) 1 0 m

-- `r` is the first of the CPUs below `n` with the smallest load.
pub record IsLeast (m : Machine) (n r : ℕ) : Type 0 where
  pub known : r < n
  pub smallest : (i : ℕ) → i < n → load m r ≤ load m i
  pub first : (i : ℕ) → i < r → load m r < load m i

advance-IsLeast :
    (i least : ℕ) (m : Machine)
    → IsLeast m i least
    → IsLeast m (suc i) (if ltb (load m i) (load m least) then i else least)
advance-IsLeast i least m l = elim (Bool-cases (ltb (load m i) (load m least))) [
  | inl less ↦ rw less (record {
    known = omega arith;
    smallest = λ k h. elim (dec_lt k i) [
      | yes low ↦ ground (arith, l.smallest k low, less)
      | no high ↦ subst (λ j. load m i ≤ load m j) {x = i} (omega arith) (omega arith)
    ];
    first = λ k h. ground (arith, l.smallest k h, less);
  })
  | inr more ↦ rw more (record {
    known = omega (arith, l.known);
    smallest = λ k h. elim (dec_lt k i) [
      | yes low ↦ l.smallest k low
      | no high ↦ subst (λ j. load m least ≤ load m j) {x = i} (omega arith) (ground arith)
    ];
    first = l.first;
  })
]

least_from-IsLeast :
    (left i least : ℕ) (m : Machine)
    → IsLeast m i least
    → IsLeast m (i + left) (least_from left i least m)
unfolding least_from
least_from-IsLeast zero i least m l = record {
  known = omega (arith, l.known);
  smallest = λ k h. l.smallest k (omega arith);
  first = l.first;
}
least_from-IsLeast (suc left) i least m l =
    subst
      (λ n.
        IsLeast m n
          (least_from left (suc i) (if ltb (load m i) (load m least) then i else least) m))
      (omega arith) (least_from-IsLeast left (suc i) _ m (advance-IsLeast i least m l))

-- If there is a CPU, a new task goes to the first of the least loaded CPUs.
pub pick-IsLeast : (m : Machine) → 0 < m.cpu_count → IsLeast m m.cpu_count (pick_least_loaded_cpu m)
unfolding pick_least_loaded_cpu
pick-IsLeast m h =
    subst (λ n. IsLeast m n (pick_least_loaded_cpu m)) (omega arith)
      (least_from-IsLeast (m.cpu_count - 1) 1 0 m only_first)
  where
    only_first : IsLeast m 1 0
    only_first = record {
      known = omega arith;
      smallest = λ i k. subst (λ j. load m 0 ≤ load m j) {x = 0} (omega arith) (omega arith);
      first = λ i k. absurd (omega arith);
    }
