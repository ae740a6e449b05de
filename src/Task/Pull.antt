-- ===== src/Task/Pull.antt =====
-- src/kernel/task.c: `task_steal` and the loop of `task_schedule` that calls it.
use zoho_os.Prelude.{
  ℕ, zero, suc, ◌+◌, ◌<◌, ◌≡◌, ◌≢◌, ap, sym, ◌∙◌, subst, [], arith, update, inl, inr, ℕ_discrete,
  some, List-cases, ==_of_ne,
}
use zoho_os.Task.{
  Runqueue, Machine, dequeue_task, steal_one, steal_from, task_steal, pull, find_next,
}
use zoho_os.Task.Queue.{IsQueue, dequeue_empty}
use zoho_os.Task.State.{Waiting, QueuesHold}
use zoho_os.Task.Front.{Pulled, front, pull_own, nothing_stolen, one_stolen}

module _ (left i self : ℕ) (m : Machine) where
  steal_skip : i ≡ self → steal_from (suc left) i self m ≡ steal_from left (suc i) self m
  unfolding steal_from
  steal_skip e = ground arith

  steal_empty :
      (dequeue_task (m.cpus i).runqueue m.tasks).0 ≡ 0
      → steal_from (suc left) i self m ≡ steal_from left (suc i) self m
  unfolding steal_from
  steal_empty e = ground arith

  steal_hit :
      (x : ℕ)
      → i ≢ self
      → (dequeue_task (m.cpus i).runqueue m.tasks).0 ≡ x
      → x ≢ 0
      → steal_from (suc left) i self m
        ≡ (x, steal_one self i x (dequeue_task (m.cpus i).runqueue m.tasks).1 m)
  unfolding steal_from steal_one
  steal_hit x ne e nz = rw (==_of_ne i self ne, e, ==_of_ne x 0 nz, steal_from)

abbrev pub StolenFrom : ℕ → Machine → Waiting → ℕ × Machine → Type 0
StolenFrom self m q r = (w : Waiting) × Pulled self m q r.0 r.1 w

one_more_empty :
    (q : Waiting) (i self : ℕ)
    → ((k : ℕ) → k < i → k ≢ self → q k ≡ [])
    → (i ≢ self → q i ≡ [])
    → (k : ℕ) → k < suc i
    → k ≢ self
    → q k ≡ []
one_more_empty q i self before here k hk ne = elim (ℕ_discrete k i) [
  | yes same ↦ ap q same ∙ here (λ e. ne (same ∙ e))
  | no other ↦ before k (omega arith) ne
]

no_queue_head :
    (m : Machine) (q : Waiting) (i : ℕ)
    → QueuesHold m q
    → i < m.cpu_count
    → q i ≡ []
    → (dequeue_task (m.cpus i).runqueue m.tasks).0 ≡ 0
no_queue_head m q i h k empty =
    ap (λ (r : ℕ × Runqueue). r.0)
      (dequeue_empty m.tasks (m.cpus i).runqueue
        (subst (IsQueue m.tasks (m.cpus i).runqueue) empty (h.queues i k)))

pull_empty :
    (self : ℕ) (m : Machine)
    → (dequeue_task (m.cpus self).runqueue m.tasks).0 ≡ 0
    → pull self m ≡ task_steal self m
unfolding pull
pull_empty self m e = ground arith

steal_from-Pulled :
    (left i self : ℕ) (m : Machine) (q : Waiting)
    → QueuesHold m q
    → i + left ≡ m.cpu_count
    → q self ≡ []
    → ((k : ℕ) → k < i → k ≢ self → q k ≡ [])
    → StolenFrom self m q (steal_from left i self m)
unfolding steal_from
steal_from-Pulled zero i self m q h e none_here before = (
  q,
  nothing_stolen self m q h λ k hk. elim (ℕ_discrete k self) [
    | yes here ↦ ap q here ∙ none_here
    | no there ↦ before k (omega arith) there
  ],
)
steal_from-Pulled (suc left) i self m q h e none_here before = elim (ℕ_discrete i self) [
  | yes here ↦ subst (StolenFrom self m q) (sym (steal_skip left i self m here)) (
      steal_from-Pulled left (suc i) self m q h (omega arith) none_here
        (one_more_empty q i self before (λ ne. absurd (ne here))))
  | no there ↦ elim (List-cases (q i)) [
    | inl empty ↦
        subst (StolenFrom self m q)
          (sym (steal_empty left i self m (no_queue_head m q i h (omega arith) empty)))
          (steal_from-Pulled left (suc i) self m q h (omega arith) none_here
            (one_more_empty q i self before (λ ne. empty)))
    | inr (x, xs, more) ↦
        let f = front m q i x xs h (omega arith) more in
        subst (StolenFrom self m q) (sym (steal_hit left i self m x there f.got f.nonzero))
          (update q i xs, one_stolen self i x xs m q h (omega arith) there none_here before more)
  ]
]

-- On queues that hold `q`, the scheduler gets the first task of its own queue, else of the first
-- other CPU that has one, else none. The task is ready, no idle task and waits nowhere afterwards,
-- the queues hold the rest, and no current task, idle task or reaped task changes.
pub pull-Pulled :
    (self : ℕ) (m : Machine) (q : Waiting)
    → QueuesHold m q
    → self < m.cpu_count
    → StolenFrom self m q (pull self m)
unfolding task_steal
pull-Pulled self m q h known = elim (List-cases (q self)) [
  | inl empty ↦
      subst (StolenFrom self m q) (sym (pull_empty self m (no_queue_head m q self h known empty))) (
        steal_from-Pulled m.cpu_count 0 self m q h (omega arith) empty
          (λ k hk ne. absurd (omega arith)))
  | inr (x, xs, more) ↦
      let (m', e, p) = pull_own self x xs m q h known more in
      subst (StolenFrom self m q) (sym e) (update q self xs, p)
]

-- On queues that hold `q`, the loop of `task_schedule` ends in its first round, with what `pull` gives.
pub find_next-pull :
    (fuel self : ℕ) (m : Machine) (q : Waiting)
    → QueuesHold m q
    → self < m.cpu_count
    → find_next (suc fuel) self m ≡ some (pull self m)
unfolding find_next
find_next-pull fuel self m q h known =
    let (w, p) = pull-Pulled self m q h known in
    elim (ℕ_discrete (pull self m).0 0) [
      | yes none_left ↦ ground (arith, none_left)
      | no found ↦ ground (arith, p.is_ready found)
    ]
