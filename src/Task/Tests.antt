-- ===== src/Task/Tests.antt =====
-- src/kernel/task.c: the theorems of the scheduler at concrete states, and runs of its code.
use zoho_os.Prelude.{
  ℕ, ◌+◌, ◌≡◌, refl, true, false, [], ◌∷◌, arith, ◌==◌, update, some, Bool-cases, inl, inr,
}
use zoho_os.Task.{
  task_schedule, ready, running, Task, Tasks, Cpu, Runqueue, Machine, dequeue_task, steal_one,
  steal_from, task_steal, pull,
}
use zoho_os.Task.Queue.{IsQueue}
use zoho_os.Task.Timer.{task_needs_schedule, ticks, ticks_preempt}
use zoho_os.Task.Schedule.{Scheduled, task_schedule_total}
use zoho_os.Task.Turns.{schedules, schedules_turn}
use zoho_os.Task.State.{IsValid, current, Waiting, QueuesHold, CurrentsApart}

abbrev an_idle_task : Task
an_idle_task = record {
  id = 0;
  rsp = 0x9000;
  stack_bottom = 0;
  user_stack_bottom = 0;
  kernel_rsp = 0x9000;
  pml4 = 0x1000;
  state = running;
  cpu_id = 0;
  timeslice = 0;
  total_ticks = 0;
  next = 0;
}

-- Task 100 runs, task 101 waits, and all others are idle ones.
abbrev two_tasks : Tasks
two_tasks =
    update
      (update (λ t. an_idle_task) 101
        (record an_idle_task { id = 8; rsp = 0x8000; state = ready; cpu_id = 1 }))
      100 (record an_idle_task { id = 7; timeslice = 2 })

abbrev no_queue : Runqueue
no_queue = record { head = 0; tail = 0; count = 0 }

abbrev one_queued : Runqueue
one_queued = record { head = 101; tail = 101; count = 1 }

abbrev first_cpu : Cpu
first_cpu = record {
  id = 0;
  current_task = 100;
  need_resched = false;
  total_ticks = 0;
  idle_ticks = 0;
  kernel_stack = 0;
  rsp0 = 0;
  address_space = 0x1000;
  runqueue = no_queue;
  idle_task = 200;
}

-- CPU 0 runs task 100 with two ticks left, and task 101 waits on CPU 1, which idles.
abbrev two_cpus : Machine
two_cpus = record {
  cpus =
      update (λ i. record first_cpu { id = i; current_task = 200 + i; idle_task = 200 + i }) 0
        first_cpu;
  cpu_count = 2;
  tasks = two_tasks;
  reaped = [];
}

abbrev busy_cpus : Machine
busy_cpus = record two_cpus {
  cpus = update two_cpus.cpus 1 (record (two_cpus.cpus 1) { runqueue = one_queued });
}

abbrev waiting : Waiting
waiting = update (λ i. []) 1 (101 ∷ [])

one_queued-IsQueue : IsQueue two_tasks one_queued (101 ∷ [])
one_queued-IsQueue = record {
  chain = (refl, omega arith, refl);
  tail_last = refl;
  counted = refl;
  distinct = (refl, tt);
}

no_queue-IsQueue : IsQueue two_tasks no_queue []
no_queue-IsQueue = record { chain = refl; tail_last = refl; counted = refl; distinct = tt }

busy-QueuesHold : QueuesHold busy_cpus waiting
busy-QueuesHold = record {
  queues = λ i k. elim (Bool-cases (i == 1)) [
    | inl here ↦ rw here one_queued-IsQueue
    | inr there ↦ elim (Bool-cases (i == 0)) [
      | inl first ↦ rw (there, first) no_queue-IsQueue
      | inr other ↦ absurd (ground arith)
    ]
  ];
  all_ready = λ i t k e. ground arith;
  in_one = λ i j t ki kj a b. ground arith;
  not_idle = λ i t k e z. ground arith;
  idle_id = λ i k. ground arith;
}

busy-CurrentsApart : CurrentsApart busy_cpus waiting
busy-CurrentsApart = record {
  not_waiting = λ i j ki kj. ground arith;
  own = λ i j ki kj nz e. ground arith;
  idle_own = λ i j ki kj e. ground arith;
  idle_distinct = λ i j ki kj e. ground arith;
}

ticks_preempt_example : task_needs_schedule 0 (ticks 2 0 two_cpus) ≡ true
unfolding task_needs_schedule
ticks_preempt_example =
    ticks_preempt 2 0 2 two_cpus
      (record { current = omega arith; state = refl; busy = omega arith; slice_left = refl })

-- CPU 0 has no task waiting and steals task 101.
stolen_first : (pull 0 busy_cpus).0 ≡ 101
unfolding pull task_steal steal_from steal_one dequeue_task
stolen_first = refl

busy-IsValid : IsValid busy_cpus waiting
busy-IsValid = record { hold = busy-QueuesHold; apart = busy-CurrentsApart }

task_schedule_total_example :
    (t rsp' : ℕ) × (m' : Machine) × (w : Waiting) × (task_schedule 1 0 0x7000 busy_cpus
      ≡ some (rsp', m'))
    × Scheduled 0 busy_cpus waiting t rsp' m' w
task_schedule_total_example =
    task_schedule_total 0 0 0x7000 busy_cpus waiting busy-IsValid (omega arith) (omega arith)

schedules_turn_example :
    (m' : Machine) × (schedules (0x7000 ∷ []) 1 (some busy_cpus) ≡ some m') × (current m' 1 ≡ 101)
schedules_turn_example =
    schedules_turn 0x7000 [] 1 busy_cpus waiting [] [] 101 busy-IsValid (omega arith) (omega arith)
      refl refl
