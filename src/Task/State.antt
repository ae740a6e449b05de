-- ===== src/Task/State.antt =====
-- src/kernel/task.c: the invariant of the scheduler's state, and what its queue operations keep.
use zoho_os.Prelude.{
  ℕ, ◌<◌, ◌≡◌, ◌≢◌, refl, ap, sym, ◌∙◌, subst, true, false, List, [], ◌∷◌, ◌++◌, arith, ◌==◌,
  update, has, has-append, Bool-cases, inl, inr, ◌⊎◌, ℕ_discrete,
}
use zoho_os.Task.{ready, Tasks, Runqueue, Machine, dequeue_task, requeue}
use zoho_os.Task.Queue.{IsQueue, IsQueue-frame, enqueue-IsQueue, dequeue-IsQueue, enqueue_keeps}

-- What waits on each CPU, the next to run first.
abbrev pub Waiting : Type 0
Waiting = ℕ → List ℕ

abbrev pub current : Machine → ℕ → ℕ
current m i = (m.cpus i).current_task

-- The queues hold the tasks `q`, each READY, in one queue only, and not an idle task.
pub record QueuesHold (m : Machine) (q : Waiting) : Type 0 where
  pub queues : (i : ℕ) → i < m.cpu_count → IsQueue m.tasks (m.cpus i).runqueue (q i)
  pub all_ready : (i t : ℕ) → i < m.cpu_count → has t (q i) ≡ true → (m.tasks t).state ≡ ready
  pub in_one :
      (i j t : ℕ)
      → i < m.cpu_count
      → j < m.cpu_count
      → has t (q i) ≡ true
      → has t (q j) ≡ true
      → i ≡ j
  pub not_idle : (i t : ℕ) → i < m.cpu_count → has t (q i) ≡ true → (m.tasks t).id ≢ 0
  pub idle_id : (i : ℕ) → i < m.cpu_count → (m.tasks (m.cpus i).idle_task).id ≡ 0

-- Each CPU runs a task of its own that waits nowhere, and no CPU runs the idle task of another.
pub record CurrentsApart (m : Machine) (q : Waiting) : Type 0 where
  pub not_waiting : (i j : ℕ) → i < m.cpu_count → j < m.cpu_count → has (current m i) (q j) ≡ false
  pub own :
      (i j : ℕ)
      → i < m.cpu_count
      → j < m.cpu_count
      → current m i ≢ 0
      → current m i ≡ current m j
      → i ≡ j
  pub idle_own :
      (i j : ℕ) → i < m.cpu_count → j < m.cpu_count → current m i ≡ (m.cpus j).idle_task → i ≡ j
  pub idle_distinct :
      (i j : ℕ)
      → i < m.cpu_count
      → j < m.cpu_count
      → (m.cpus i).idle_task ≡ (m.cpus j).idle_task
      → i ≡ j

pub record IsValid (m : Machine) (q : Waiting) : Type 0 where
  pub hold : QueuesHold m q
  pub apart : CurrentsApart m q

-- A task that may be queued: ready, not an idle one, and in no queue.
abbrev pub Queueable : Machine → Waiting → ℕ → Type 0
Queueable m q t =
    ((m.tasks t).state ≡ ready)
    × ((m.tasks t).id ≢ 0)
    × ((j : ℕ) → j < m.cpu_count → has t (q j) ≡ false)

abbrev pub set_queue : ℕ → Runqueue → Tasks → Machine → Machine
set_queue self rq us m = record m {
  cpus = update m.cpus self (record (m.cpus self) { runqueue = rq });
  tasks = us;
}

-- Giving one CPU another queue, of tasks that waited there already or may be queued.
module _ (self : ℕ) (m : Machine) (q : Waiting) (rq : Runqueue) (us : Tasks) (xs : List ℕ)
    (known : self < m.cpu_count) (h : QueuesHold m q) (holds : IsQueue us rq xs)
    (same : (u : ℕ) → ((us u).state ≡ (m.tasks u).state) × ((us u).id ≡ (m.tasks u).id))
    (spared : (i u : ℕ)
      → i < m.cpu_count
      → i ≢ self
      → has u (q i) ≡ true
      → (us u).next ≡ (m.tasks u).next)
    (from : (u : ℕ) → has u xs ≡ true → (has u (q self) ≡ true) ⊎ Queueable m q u) where
  waits :
      (i u : ℕ)
      → has u (update q self xs i) ≡ true
      → ((i ≡ self) × (has u xs ≡ true)) ⊎ ((i ≢ self) × (has u (q i) ≡ true))
  waits i u e = elim (ℕ_discrete i self) [
    | yes here ↦ inl (here, ground arith)
    | no there ↦ inr (there, ground arith)
  ]

  replaced-IsQueue :
      (i : ℕ)
      → i < m.cpu_count
      → IsQueue us ((set_queue self rq us m).cpus i).runqueue (update q self xs i)
  replaced-IsQueue i k = elim (Bool-cases (i == self)) [
    | inl here ↦ rw here holds
    | inr there ↦ rw there (
        IsQueue-frame m.tasks us (m.cpus i).runqueue (q i) (λ u e. spared i u k (ground arith) e)
          (h.queues i k))
  ]

  was_there : (u i : ℕ) → i < m.cpu_count → i ≢ self → has u (q i) ≡ true → has u xs ≡ true → ⊥
  was_there u i k ne e f = elim (from u f) [
    | inl old ↦ ne (h.in_one i self u k known e old)
    | inr new ↦ ground (arith, new.2 i k)
  ]

  same_idle : (i : ℕ) → ((set_queue self rq us m).cpus i).idle_task ≡ (m.cpus i).idle_task
  same_idle i = ground arith

  pub replace-QueuesHold : QueuesHold (set_queue self rq us m) (update q self xs)
  replace-QueuesHold = record {
    queues = replaced-IsQueue;
    all_ready = λ i u k e. elim (waits i u e) [
      | inl (here, f) ↦ elim (from u f) [
        | inl old ↦ ground (arith, same u, h.all_ready self u known old)
        | inr new ↦ ground (arith, same u, new.0)
      ]
      | inr (there, f) ↦ ground (arith, same u, h.all_ready i u k f)
    ];
    in_one = λ i j u ki kj a b. elim (waits i u a) [
      | inl (hi, fi) ↦ elim (waits j u b) [
        | inl (hj, fj) ↦ hi ∙ sym hj
        | inr (tj, fj) ↦ absurd (was_there u j kj tj fj fi)
      ]
      | inr (ti, fi) ↦ elim (waits j u b) [
        | inl (hj, fj) ↦ absurd (was_there u i ki ti fi fj)
        | inr (tj, fj) ↦ h.in_one i j u ki kj fi fj
      ]
    ];
    not_idle = λ i u k e z. elim (waits i u e) [
      | inl (here, f) ↦ elim (from u f) [
        | inl old ↦ h.not_idle self u known old (sym (same u).1 ∙ z)
        | inr new ↦ new.1 (sym (same u).1 ∙ z)
      ]
      | inr (there, f) ↦ h.not_idle i u k f (sym (same u).1 ∙ z)
    ];
    idle_id = λ i k. rw (same_idle i) ((same _).1 ∙ h.idle_id i k);
  }

-- A task that may be queued is appended to the queue of a CPU.
pub requeue-QueuesHold :
    (self t : ℕ) (m : Machine) (q : Waiting)
    → self < m.cpu_count
    → QueuesHold m q
    → t ≢ 0
    → Queueable m q t
    → QueuesHold (requeue self t m) (update q self (q self ++ t ∷ []))
unfolding requeue
requeue-QueuesHold self t m q known h nz ok =
    let (holds, spared) =
      enqueue-IsQueue m.tasks (m.cpus self).runqueue (q self) t (h.queues self known) nz
        (ok.2 self known) in
    replace-QueuesHold self m q _ _ (q self ++ t ∷ []) known h holds
      (enqueue_keeps (m.cpus self).runqueue t m.tasks)
      (λ i u k ne e. spared u (λ z. absurd (ground (arith, ok.2 i k))) (elsewhere i u k ne e))
      (λ u e. elim (Bool-cases (has u (q self))) [
        | inl old ↦ inl old
        | inr new ↦
            inr (subst (Queueable m q) {x = t} (ground (arith, has-append u (q self) (t ∷ []))) ok)
      ])
  where
    elsewhere : (i u : ℕ) → i < m.cpu_count → i ≢ self → has u (q i) ≡ true → has u (q self) ≡ false
    elsewhere i u k ne e = elim (Bool-cases (has u (q self))) [
      | inl both ↦ absurd (ne (h.in_one i self u k known e both))
      | inr out ↦ out
    ]

-- A task is taken off the front of the queue of a CPU.
pub dequeue-QueuesHold :
    (self x : ℕ) (xs : List ℕ) (m : Machine) (q : Waiting)
    → self < m.cpu_count
    → QueuesHold m q
    → q self ≡ x ∷ xs
    → QueuesHold
        (set_queue self (dequeue_task (m.cpus self).runqueue m.tasks).1 m.tasks m)
        (update q self xs)
dequeue-QueuesHold self x xs m q known h e =
    replace-QueuesHold self m q _ m.tasks xs known h
      (dequeue-IsQueue m.tasks (m.cpus self).runqueue x xs
        (subst (IsQueue m.tasks (m.cpus self).runqueue) e (h.queues self known))).1
      (λ u. (refl, refl)) (λ i u k ne f. refl) (λ u f. inl (ground (arith, ap (has u) e)))
