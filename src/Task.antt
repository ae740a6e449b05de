-- ===== src/Task.antt =====
-- src/kernel/task.c: tasks, run queues, the scheduler and the timer, for any number of CPUs.
-- A `task_t*` is a number, 0 is NULL, and the tasks are a store from pointers to records. A
-- function that takes a lock runs as one step, and so does a whole call of `task_schedule`, which
-- runs with interrupts off: what other CPUs do to the queues in the middle of it is not modelled.
pub mod Queue
pub mod Choice
pub mod Timer
pub mod State
pub mod Outgoing
pub mod Front
pub mod Pull
pub mod Incoming
pub mod Schedule
pub mod Turns
mod Tests
use zoho_os.Prelude.{
  ℕ, zero, suc, ◌+◌, ◌-◌, ◌%◌, ◌^◌, Bool, true, false, not, ◌&&◌, ◌||◌, Option, none, some, List,
  [], ◌∷◌, ◌++◌, arith, ◌==◌, ltb, if◌then◌else◌, update,
}

-- `task_state_t`
pub data TaskState : Type 0 where
  ready running exited : TaskState

pub record Task : Type 0 where
  pub id : ℕ
  pub rsp : ℕ
  pub stack_bottom : ℕ
  pub user_stack_bottom : ℕ
  pub kernel_rsp : ℕ
  pub pml4 : ℕ
  pub state : TaskState
  pub cpu_id : ℕ
  pub timeslice : ℕ
  pub total_ticks : ℕ
  pub next : ℕ

abbrev pub Tasks : Type 0
Tasks = ℕ → Task

pub record Runqueue : Type 0 where
  pub head : ℕ
  pub tail : ℕ
  pub count : ℕ

-- The fields of `cpu_t` that the scheduler uses. `rsp0` is the stack in the CPU's TSS, and
-- `address_space` its register CR3.
pub record Cpu : Type 0 where
  pub id : ℕ
  pub current_task : ℕ
  pub need_resched : Bool
  pub total_ticks : ℕ
  pub idle_ticks : ℕ
  pub kernel_stack : ℕ
  pub rsp0 : ℕ
  pub address_space : ℕ
  pub runqueue : Runqueue
  pub idle_task : ℕ

-- `cpus` and `cpu_count` of src/kernel/cpu.c, the tasks, and the tasks that were reaped, in order.
pub record Machine : Type 0 where
  pub cpus : ℕ → Cpu
  pub cpu_count : ℕ
  pub tasks : Tasks
  pub reaped : List ℕ

abbrev pub default_timeslice : ℕ
default_timeslice = 4

abbrev pub word32 : ℕ → ℕ
word32 n = n % 2 ^ 32

abbrev pub word64 : ℕ → ℕ
word64 n = n % 2 ^ 64

abbrev pub set_next : Tasks → ℕ → ℕ → Tasks
set_next ts p q = update ts p (record (ts p) { next = q })

abbrev pub set_state : Tasks → ℕ → TaskState → Tasks
set_state ts p s = update ts p (record (ts p) { state = s })

unfoldable pub enqueue_task : Runqueue → ℕ → Tasks → Runqueue × Tasks
enqueue_task rq task ts =
    let ts' = set_next ts task 0 in
    if not (rq.tail == 0)
    then (record rq { tail = task; count = word32 (rq.count + 1) }, set_next ts' rq.tail task)
    else (record { head = task; tail = task; count = word32 (rq.count + 1) }, ts')

-- The pointer is 0 where C returns NULL.
unfoldable pub dequeue_task : Runqueue → Tasks → ℕ × Runqueue
dequeue_task rq ts =
    let after = (ts rq.head).next in
    if rq.head == 0 then (0, rq) else (
      rq.head,
      record {
        head = after;
        tail = if after == 0 then 0 else rq.tail;
        count = word32 (rq.count + 2 ^ 32 - 1);
      },
    )

-- Task `task` has left the queue of CPU `i`, where `rq` remains, for CPU `self`.
unfoldable pub steal_one : ℕ → ℕ → ℕ → Runqueue → Machine → Machine
steal_one self i task rq m = record m {
  cpus = update m.cpus i (record (m.cpus i) { runqueue = rq });
  tasks = update m.tasks task (record (m.tasks task) { cpu_id = (m.cpus self).id });
}

-- `task_steal` on CPU `self`: the walk over the CPUs from index `i` with `left` to go.
unfoldable pub steal_from : ℕ → ℕ → ℕ → Machine → ℕ × Machine
unfolding steal_one
steal_from zero i self m = (0, m)
steal_from (suc left) i self m =
    let later = steal_from left (suc i) self m in
    let (task, rq) = dequeue_task (m.cpus i).runqueue m.tasks in
    if i == self then later else if task == 0 then later else (task, steal_one self i task rq m)

unfoldable pub task_steal : ℕ → Machine → ℕ × Machine
unfolding steal_from
task_steal self m = steal_from m.cpu_count 0 self m

-- `dequeue_task(&cpu->runqueue)`, and `task_steal` if that gives nothing.
unfoldable pub pull : ℕ → Machine → ℕ × Machine
pull self m =
    let (task, rq) = dequeue_task (m.cpus self).runqueue m.tasks in
    let stolen = task_steal self m in
    if task == 0
    then stolen
    else (task, record m { cpus = update m.cpus self (record (m.cpus self) { runqueue = rq }) })

-- `enqueue_task(&cpu->runqueue, task)`
unfoldable pub requeue : ℕ → ℕ → Machine → Machine
requeue self task m =
    let (rq, ts) = enqueue_task (m.cpus self).runqueue task m.tasks in
    record m { cpus = update m.cpus self (record (m.cpus self) { runqueue = rq }); tasks = ts }

-- The loop that looks for a ready task. Of `task_reap` the model keeps that it was called: the
-- memory, the mappings and the windows that it releases are not part of the scheduler's state.
-- `none`: the fuel ran out.
unfoldable pub find_next : ℕ → ℕ → Machine → Option (ℕ × Machine)
find_next zero self m = none
find_next (suc fuel) self m =
    let (task, m') = pull self m in
    let after_reap = find_next fuel self (record m' { reaped = m'.reaped ++ task ∷ [] }) in
    let after_requeue = find_next fuel self (requeue self task m') in
    if task == 0 then some (0, m') else elim ((m'.tasks task).state) [
      | exited ↦ after_reap
      | ready ↦ some (task, m')
      | running ↦ after_requeue
    ]

-- The outgoing task's stack pointer is saved, and the reschedule flag taken down.
saved : ℕ → ℕ → Machine → Machine
saved self current_rsp m =
    let p = (m.cpus self).current_task in
    record m {
      cpus = update m.cpus self (record (m.cpus self) { need_resched = false });
      tasks = update m.tasks p (record (m.tasks p) { rsp = current_rsp });
    }

-- A task that was running is ready now.
stopped : ℕ → Machine → Machine
stopped self m = record m { tasks = set_state m.tasks (m.cpus self).current_task ready }

-- What becomes of the outgoing task, by its state.
put_back_as : TaskState → ℕ → Machine → Machine
unfolding stopped
put_back_as running self m =
    let p = (m.cpus self).current_task in
    if not ((m.tasks p).id == 0) then requeue self p (stopped self m) else stopped self m
put_back_as ready self m = m
put_back_as exited self m = m

-- The outgoing task is queued again if it can run on and is no idle task.
unfoldable pub put_back : ℕ → ℕ → Machine → Machine
unfolding saved put_back_as
put_back self current_rsp m =
    put_back_as ((m.tasks ((m.cpus self).current_task)).state) self (saved self current_rsp m)

-- The incoming task: it becomes the current one, with its stacks and its address space.
unfoldable pub switch_to : ℕ → ℕ → Machine → ℕ × Machine
switch_to self task m =
    let t = m.tasks task in
    (
      t.rsp,
      record m {
        cpus = update m.cpus self (record (m.cpus self) {
          current_task = task;
          rsp0 = t.kernel_rsp;
          kernel_stack = t.kernel_rsp;
          address_space = t.pml4;
        });
        tasks =
            update m.tasks task (record t {
              state = running;
              timeslice = if t.id == 0 then 0 else default_timeslice;
            });
      },
    )

pick : ℕ → ℕ × Machine → ℕ × Machine
unfolding switch_to
pick self (task, m) = switch_to self (if task == 0 then (m.cpus self).idle_task else task) m

map_some : (ℕ × Machine → ℕ × Machine) → Option (ℕ × Machine) → Option (ℕ × Machine)
map_some f none = none
map_some f (some x) = some (f x)

-- The new stack pointer and the new state.
unfoldable pub task_schedule : ℕ → ℕ → ℕ → Machine → Option (ℕ × Machine)
unfolding map_some pick
task_schedule fuel self current_rsp m =
    if (m.cpus self).current_task == 0
    then some (current_rsp, m)
    else map_some (pick self) (find_next fuel self (put_back self current_rsp m))
