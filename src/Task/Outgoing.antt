-- ===== src/Task/Outgoing.antt =====
-- src/kernel/task.c: what `task_schedule` does with the outgoing task.
use zoho_os.Prelude.{
  ℕ, ◌<◌, ◌≡◌, ◌≢◌, refl, sym, subst, false, not, ◌&&◌, List, [], ◌∷◌, ◌++◌, arith, ◌==◌,
  if◌then◌else◌, update, has, Bool-cases, inl, inr,
}
use zoho_os.Task.{
  TaskState, ready, running, exited, Task, Tasks, Cpu, Machine, requeue, put_back, put_back_as,
  saved, stopped,
}
use zoho_os.Task.Queue.{IsQueue-frame}
use zoho_os.Task.State.{Waiting, current, QueuesHold, CurrentsApart, Queueable, requeue-QueuesHold}
use zoho_os.Task.Timer.{is_running}

-- The queues survive a change to a task that waits nowhere and keeps its id, and changes to a CPU
-- that spare its queue and its idle task.
pub touch-QueuesHold :
    (m : Machine) (q : Waiting) (cpus : ℕ → Cpu) (p : ℕ) (t : Task) (reaped : List ℕ)
    → QueuesHold m q
    → ((i : ℕ) → (cpus i).runqueue ≡ (m.cpus i).runqueue)
    → ((i : ℕ) → (cpus i).idle_task ≡ (m.cpus i).idle_task)
    → ((i : ℕ) → i < m.cpu_count → has p (q i) ≡ false)
    → t.id ≡ (m.tasks p).id
    → QueuesHold (record m { cpus = cpus; tasks = update m.tasks p t; reaped = reaped }) q
touch-QueuesHold m q cpus p t reaped h rqs idles out same = record {
  queues = λ i k. rw (rqs i) (
      IsQueue-frame m.tasks us (m.cpus i).runqueue (q i) (λ u e. ground (arith, out i k))
        (h.queues i k));
  all_ready = λ i u k e. ground (arith, out i k, h.all_ready i u k e);
  in_one = h.in_one;
  not_idle = λ i u k e z. h.not_idle i u k e (ground (arith, out i k));
  idle_id = λ i k. rw (idles i) (ground (arith, h.idle_id i k));
}
  where
    us : Tasks
    us = update m.tasks p t

-- The tasks that wait once the outgoing one is put back: it comes last on its own CPU if it can run
-- on and is no idle task.
unfoldable pub with_outgoing : ℕ → Machine → Waiting → Waiting
with_outgoing self m q =
    let p = current m self in
    if is_running (m.tasks p).state && not ((m.tasks p).id == 0)
    then update q self (q self ++ p ∷ [])
    else q

-- Everything about CPU `self` and its outgoing task that `put_back` may change.
pub record PutBack (self : ℕ) (m m' : Machine) (q : Waiting) : Type 0 where
  pub hold : QueuesHold m' (with_outgoing self m q)
  pub count : m'.cpu_count ≡ m.cpu_count
  pub currents : (i : ℕ) → current m' i ≡ current m i
  pub idles : (i : ℕ) → (m'.cpus i).idle_task ≡ (m.cpus i).idle_task
  pub no_reap : m'.reaped ≡ m.reaped
  pub flag_down : (m'.cpus self).need_resched ≡ false

module _ (self rsp : ℕ) (m : Machine) where
  put_back_eq :
      put_back self rsp m ≡ put_back_as (m.tasks (current m self)).state self (saved self rsp m)
  unfolding put_back
  put_back_eq = refl

  stopped_count : (stopped self (saved self rsp m)).cpu_count ≡ m.cpu_count
  unfolding stopped saved
  stopped_count = refl

  put_back_count : (put_back self rsp m).cpu_count ≡ m.cpu_count
  unfolding put_back requeue
  put_back_count = ground arith

  put_back_reaped : (put_back self rsp m).reaped ≡ m.reaped
  unfolding put_back requeue
  put_back_reaped = ground arith

  put_back_currents : (i : ℕ) → current (put_back self rsp m) i ≡ current m i
  unfolding put_back requeue
  put_back_currents i = ground arith

  put_back_idles : (i : ℕ) → ((put_back self rsp m).cpus i).idle_task ≡ (m.cpus i).idle_task
  unfolding put_back requeue
  put_back_idles i = ground arith

  put_back_flag : ((put_back self rsp m).cpus self).need_resched ≡ false
  unfolding put_back requeue
  put_back_flag = ground arith

module _ (self rsp : ℕ) (m : Machine) (q : Waiting) (known : self < m.cpu_count)
    (nz : current m self ≢ 0) (h : QueuesHold m q) (a : CurrentsApart m q) where
  saved-QueuesHold : QueuesHold (saved self rsp m) q
  unfolding saved
  saved-QueuesHold =
      touch-QueuesHold m q _ (current m self) _ m.reaped h (λ i. ground arith) (λ i. ground arith)
        (λ i k. a.not_waiting self i known k) refl

  outgoing : current (saved self rsp m) self ≡ current m self
  unfolding saved
  outgoing = ground arith

  stopped-QueuesHold : QueuesHold (stopped self (saved self rsp m)) q
  unfolding stopped saved
  stopped-QueuesHold =
      touch-QueuesHold (saved self rsp m) q _ (current (saved self rsp m) self) _ _ saved-QueuesHold
        (λ i. refl) (λ i. refl) (λ i k. rw outgoing (a.not_waiting self i known k)) refl

  same_id :
      (((saved self rsp m).tasks (current (saved self rsp m) self)).id == 0)
      ≡ ((m.tasks (current m self)).id == 0)
  unfolding saved
  same_id = ground arith

  may_wait :
      (m.tasks (current m self)).id ≢ 0
      → Queueable (stopped self (saved self rsp m)) q (current m self)
  unfolding stopped saved
  may_wait busy = (ground arith, ground arith, λ j k. a.not_waiting self j known k)

  put_back_as-hold :
      (st : TaskState)
      → (m.tasks (current m self)).state ≡ st
      → QueuesHold (put_back_as st self (saved self rsp m)) (with_outgoing self m q)
  unfolding put_back_as with_outgoing
  put_back_as-hold running e = elim (Bool-cases ((m.tasks (current m self)).id == 0)) [
    | inl idle ↦ rw (same_id, idle) (rw (e, with_outgoing) stopped-QueuesHold)
    | inr busy ↦
        rw (same_id, busy)
          (rw (e, with_outgoing)
            (subst
              (λ t.
                QueuesHold (requeue self t (stopped self (saved self rsp m)))
                  (update q self (q self ++ current m self ∷ [])))
              (sym outgoing)
              (requeue-QueuesHold self (current m self) (stopped self (saved self rsp m)) q kept
                stopped-QueuesHold nz (may_wait (ground arith)))))
  ]
    where
      kept : self < (stopped self (saved self rsp m)).cpu_count
      kept = rw stopped_count known
  put_back_as-hold ready e = rw (e, with_outgoing) saved-QueuesHold
  put_back_as-hold exited e = rw (e, with_outgoing) saved-QueuesHold

  -- When CPU `self` has a current task, the queues hold `q` and no current task waits, the top of
  -- `task_schedule` gives queues that hold `q` with the outgoing task put back, lowers the flag, and
  -- changes no current task, no idle task and nothing that was reaped.
  pub put_back-PutBack : PutBack self m (put_back self rsp m) q
  put_back-PutBack = record {
    hold = subst (λ n. QueuesHold n (with_outgoing self m q)) (sym shape) (put_back_as-hold _ refl);
    count = put_back_count self rsp m;
    currents = put_back_currents self rsp m;
    idles = put_back_idles self rsp m;
    no_reap = put_back_reaped self rsp m;
    flag_down = put_back_flag self rsp m;
  }
    where
      shape :
          put_back self rsp m ≡ put_back_as (m.tasks (current m self)).state self (saved self rsp m)
      shape = put_back_eq self rsp m
