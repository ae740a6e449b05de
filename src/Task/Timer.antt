-- ===== src/Task/Timer.antt =====
-- src/kernel/task.c: `task_timer_tick` and the reschedule flag.
use zoho_os.Prelude.{
  ℕ, zero, suc, ◌+◌, ◌-◌, ◌≡◌, ◌≢◌, Bool, true, false, not, ◌&&◌, ◌||◌, arith, ◌==◌, ltb, leb,
  if◌then◌else◌, update,
}
use zoho_os.Task.{TaskState, running, Machine, word64}

abbrev pub is_running : TaskState → Bool
is_running running = true
is_running _ = false

unfoldable pub task_request_reschedule : ℕ → Machine → Machine
task_request_reschedule self m = record m {
  cpus = update m.cpus self (record (m.cpus self) { need_resched = true });
}

unfoldable pub task_needs_schedule : ℕ → Machine → Bool
task_needs_schedule self m = (m.cpus self).need_resched

-- The accounting at the top of the tick, for the task `p` that runs on CPU `self`.
count_tick : ℕ → ℕ → Machine → Machine
count_tick self p m =
    let c = m.cpus self in
    let t = m.tasks p in
    let idle = not (p == 0) && t.id == 0 in
    record m {
      cpus = update m.cpus self (record c {
        total_ticks = word64 (c.total_ticks + 1);
        idle_ticks = if idle then word64 (c.idle_ticks + 1) else c.idle_ticks;
      });
      tasks =
          if p == 0
          then m.tasks
          else update m.tasks p (record t { total_ticks = word64 (t.total_ticks + 1) });
    }

-- The time slice of a task that is not idle: one tick less, and a flag at 0.
use_slice : ℕ → ℕ → Machine → Machine
unfolding task_request_reschedule
use_slice self p m =
    let t = m.tasks p in
    let m' = record m { tasks = update m.tasks p (record t { timeslice = t.timeslice - 1 }) } in
    if (t.timeslice - 1) == 0 then task_request_reschedule self m' else m'

unfoldable pub task_timer_tick : ℕ → Machine → Machine
unfolding count_tick use_slice
task_timer_tick self m =
    let p = (m.cpus self).current_task in
    let m' = count_tick self p m in
    if p == 0
    then task_request_reschedule self m'
    else if not (is_running ((m'.tasks p).state))
    then task_request_reschedule self m'
    else if (m'.tasks p).id == 0
    then (if not ((m'.cpus self).runqueue.count == 0) then task_request_reschedule self m' else m')
    else use_slice self p m'

pub ticks : ℕ → ℕ → Machine → Machine
ticks zero self m = m
ticks (suc n) self m = ticks n self (task_timer_tick self m)

-- A task other than an idle one runs on CPU `self`, with `slice` ticks left.
pub record Runs (self slice : ℕ) (m : Machine) : Type 0 where
  pub current : (m.cpus self).current_task ≢ 0
  pub state : (m.tasks ((m.cpus self).current_task)).state ≡ running
  pub busy : (m.tasks ((m.cpus self).current_task)).id ≢ 0
  pub slice_left : (m.tasks ((m.cpus self).current_task)).timeslice ≡ slice

tick-Runs :
    (self slice : ℕ) (m : Machine)
    → Runs self slice m
    → let m' = task_timer_tick self m in
      Runs self (slice - 1) m'
      × (task_needs_schedule self m' ≡ (task_needs_schedule self m || leb slice 1))
unfolding task_timer_tick task_needs_schedule
tick-Runs self slice m r = (
  record {
    current = ground arith;
    state = ground arith;
    busy = ground arith;
    slice_left = ground arith;
  },
  ground arith,
)

-- While a task other than an idle one runs with `slice` ticks left, the flag is up after `n` ticks
-- exactly if it was up before or `n` is positive and at least `slice`.
pub ticks_preempt :
    (n self slice : ℕ) (m : Machine)
    → Runs self slice m
    → task_needs_schedule self (ticks n self m)
      ≡ (task_needs_schedule self m || (ltb 0 n && leb slice n))
unfolding ticks
ticks_preempt zero self slice m r = ground arith
ticks_preempt (suc n) self slice m r =
    ground
      (arith, tick-Runs self slice m r, ticks_preempt n self (slice - 1) (task_timer_tick self m))
