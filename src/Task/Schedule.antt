-- ===== src/Task/Schedule.antt =====
-- src/kernel/task.c: `task_schedule` picks the next task fairly, and keeps the scheduler's state valid.
use zoho_os.Prelude.{
  ℕ, suc, ◌<◌, ◌≡◌, ◌≢◌, refl, ap, sym, ◌∙◌, subst, arith, ◌==◌, if◌then◌else◌, some,
}
use zoho_os.Task.{
  running, Machine, default_timeslice, put_back, pull, pick, map_some, switch_to, find_next,
  task_schedule,
}
use zoho_os.Task.State.{Waiting, current, IsValid}
use zoho_os.Task.Outgoing.{with_outgoing, put_back-PutBack}
use zoho_os.Task.Front.{Chosen}
use zoho_os.Task.Pull.{pull-Pulled, find_next-pull}
use zoho_os.Task.Incoming.{others_outside, after-IsValid}

-- CPU `self` has switched to task `t`, which ran on at `rsp`.
pub record Switched (self t rsp : ℕ) (m' : Machine) : Type 0 where
  pub now : current m' self ≡ t
  pub state : (m'.tasks t).state ≡ running
  pub slice : (m'.tasks t).timeslice ≡ (if (m'.tasks t).id == 0 then 0 else default_timeslice)
  pub resumed : rsp ≡ (m'.tasks t).rsp
  pub stack : (m'.cpus self).kernel_stack ≡ (m'.tasks t).kernel_rsp
  pub interrupt_stack : (m'.cpus self).rsp0 ≡ (m'.tasks t).kernel_rsp
  pub mapped : (m'.cpus self).address_space ≡ (m'.tasks t).pml4

switch_to-Switched :
    (self t : ℕ) (m : Machine) → Switched self t (switch_to self t m).0 (switch_to self t m).1
unfolding switch_to
switch_to-Switched self t m = record {
  now = ground arith;
  state = ground arith;
  slice = ground arith;
  resumed = ground arith;
  stack = ground arith;
  interrupt_stack = ground arith;
  mapped = ground arith;
}

-- `task_schedule` on CPU `self` from state `m` where `q` waits: the task `t` that was its turn runs,
-- and `w` waits.
pub record Scheduled (self : ℕ) (m : Machine) (q : Waiting) (t rsp : ℕ) (m' : Machine) (w : Waiting)
    : Type 0 where
  pub turn : Chosen m.cpu_count self (m.cpus self).idle_task (with_outgoing self m q) t w
  pub switched : Switched self t rsp m'
  pub valid : IsValid m' w
  pub no_reap : m'.reaped ≡ m.reaped
  pub count : m'.cpu_count ≡ m.cpu_count

schedule_eq :
    (fuel self rsp : ℕ) (m : Machine)
    → current m self ≢ 0
    → task_schedule fuel self rsp m
      ≡ map_some (pick self) (find_next fuel self (put_back self rsp m))
unfolding task_schedule
schedule_eq fuel self rsp m nz = ground (arith, nz)

switch_to_reaps_none : (self t : ℕ) (m : Machine) → (switch_to self t m).1.reaped ≡ m.reaped
unfolding switch_to
switch_to_reaps_none self t m = refl

switch_to_count : (self t : ℕ) (m : Machine) → (switch_to self t m).1.cpu_count ≡ m.cpu_count
unfolding switch_to
switch_to_count self t m = refl

picked :
    (self t : ℕ) (m : Machine)
    → pick self (t, m) ≡ switch_to self (if t == 0 then (m.cpus self).idle_task else t) m
unfolding pick
picked self t m = refl

-- With one round of fuel or more, on a CPU that has a current task, from a valid state where `q`
-- waits, `task_schedule` gives a stack pointer and a state: the task that runs is the one whose turn
-- it is once the outgoing task is put back, the state is valid, and no task was reaped.
pub task_schedule_total :
    (fuel self rsp : ℕ) (m : Machine) (q : Waiting)
    → IsValid m q
    → self < m.cpu_count
    → current m self ≢ 0
    → (t rsp' : ℕ) × (m' : Machine) × (w : Waiting) × (task_schedule (suc fuel) self rsp m
        ≡ some (rsp', m'))
      × Scheduled self m q t rsp' m' w
unfolding map_some
task_schedule_total fuel self rsp m q v known nz =
    let b = put_back-PutBack self rsp m q known nz v.hold v.apart in
    let m₁ = put_back self rsp m in
    let q₁ = with_outgoing self m q in
    let known₁ : self < m₁.cpu_count = subst (λ c. self < c) (sym b.count) known in
    let (w, p) = pull-Pulled self m₁ q₁ b.hold known₁ in
    let (t₀, m₂) = pull self m₁ in
    let idles : (i : ℕ) → (m₂.cpus i).idle_task ≡ (m.cpus i).idle_task =
      λ i. p.idles i ∙ b.idles i in
    let t = if t₀ == 0 then (m₂.cpus self).idle_task else t₀ in
    (
      t,
      (switch_to self t m₂).0,
      (switch_to self t m₂).1,
      w,
      schedule_eq (suc fuel) self rsp m nz
          ∙ ap (map_some (pick self)) (find_next-pull fuel self m₁ q₁ b.hold known₁)
          ∙ ap some (picked self t₀ m₂),
      record {
        turn =
            subst (λ c. Chosen c self (m.cpus self).idle_task q₁ t w) b.count
              (subst (λ d. Chosen m₁.cpu_count self d q₁ t w) (idles self)
                (p.chosen (m₂.cpus self).idle_task));
        switched = switch_to-Switched self t m₂;
        valid =
            after-IsValid self m m₁ m₂ q q₁ w t₀ v.apart known p b.count
              (λ i. p.currents i ∙ b.currents i) idles (others_outside self m q v.apart known nz);
        no_reap = switch_to_reaps_none self t m₂ ∙ p.no_reap ∙ b.no_reap;
        count = switch_to_count self t m₂ ∙ p.count ∙ b.count;
      },
    )
