-- ===== src/Task/Turns.antt =====
-- src/kernel/task.c: every task that waits gets its turn.
use zoho_os.Prelude.{
  ℕ, ◌<◌, ◌≡◌, ◌≢◌, refl, ap, sym, ◌∙◌, subst, not, ◌&&◌, List, [], ◌∷◌, ◌++◌, arith, ◌==◌, length,
  Bool-cases, inl, inr, Option, none, some,
}
use zoho_os.Task.{Machine, task_schedule}
use zoho_os.Task.Queue.{IsQueue}
use zoho_os.Task.State.{Waiting, current, IsValid}
use zoho_os.Task.Outgoing.{with_outgoing}
use zoho_os.Task.Front.{Chosen, own, stolen, idle}
use zoho_os.Task.Schedule.{task_schedule_total}
use zoho_os.Task.Timer.{is_running}

get_machine : Option (ℕ × Machine) → Option Machine
get_machine none = none
get_machine (some (rsp, m)) = some m

-- CPU `self` schedules once for each stack pointer, at which the task then current was stopped.
unfoldable pub schedules : List ℕ → ℕ → Option Machine → Option Machine
unfolding get_machine
schedules [] self m = m
schedules (rsp ∷ rsps) self none = none
schedules (rsp ∷ rsps) self (some m) =
    schedules rsps self (get_machine (task_schedule 1 self rsp m))

append_behind : (t : ℕ) (xs ys zs : List ℕ) → (xs ++ t ∷ ys) ++ zs ≡ xs ++ t ∷ (ys ++ zs)
append_behind t [] ys zs = refl
append_behind t (x ∷ xs) ys zs = ap (◌∷◌ x) (append_behind t xs ys zs)

-- What waits on a CPU still waits there in the same order when its own task is put back.
outgoing_behind :
    (self : ℕ) (m : Machine) (q : Waiting) (xs ys : List ℕ) (t : ℕ)
    → q self ≡ xs ++ t ∷ ys
    → (zs : List ℕ) × (with_outgoing self m q self ≡ xs ++ t ∷ zs)
unfolding with_outgoing
outgoing_behind self m q xs ys t e =
    let p = current m self in
    elim (Bool-cases (is_running (m.tasks p).state && not ((m.tasks p).id == 0))) [
      | inl again ↦ (
        ys ++ p ∷ [],
        ground (arith, again) ∙ ap (λ (l : List ℕ). l ++ p ∷ []) e ∙ append_behind t xs ys (p ∷ []),
      )
      | inr dropped ↦ (ys, ground (arith, dropped, e))
    ]

-- A CPU on which something waits takes the first of it.
Chosen-first :
    (n self none_left t : ℕ) (q w : Waiting) (x : ℕ) (xs : List ℕ)
    → Chosen n self none_left q t w
    → self < n
    → q self ≡ x ∷ xs
    → (t ≡ x) × (w self ≡ xs)
Chosen-first n self none_left t q w x xs (own e f) known h =
    (cc, ap (λ (v : Waiting). v self) f ∙ ground (arith, e, h))
Chosen-first n self none_left t q w x xs (stolen j ys k ne empty a e f) known h = absurd cc
Chosen-first n self none_left t q w x xs (idle empty e f) known h =
    absurd (ground (arith, empty self known, h))

-- One call of `task_schedule` where `x` is the first to wait: `x` runs, and what waited behind it
-- waits first.
record Turn (self rsp x : ℕ) (xs : List ℕ) (m : Machine) : Type 0 where
  pub after : Machine
  pub waiting : Waiting
  pub ran : get_machine (task_schedule 1 self rsp m) ≡ some after
  pub valid : IsValid after waiting
  pub known : self < after.cpu_count
  pub runs : current after self ≡ x
  pub nonzero : x ≢ 0
  pub behind : waiting self ≡ xs

nonzero_first :
    (self x : ℕ) (xs : List ℕ) (m : Machine) (q : Waiting)
    → IsValid m q
    → self < m.cpu_count
    → q self ≡ x ∷ xs
    → x ≢ 0
nonzero_first self x xs m q v known e =
    (subst (IsQueue m.tasks (m.cpus self).runqueue) e (v.hold.queues self known)).chain.1

one-Turn :
    (self rsp x : ℕ) (xs : List ℕ) (m : Machine) (q : Waiting)
    → IsValid m q
    → self < m.cpu_count
    → current m self ≢ 0
    → x ≢ 0
    → with_outgoing self m q self ≡ x ∷ xs
    → Turn self rsp x xs m
unfolding get_machine
one-Turn self rsp x xs m q v known nz nz' waits =
    let (u, rsp', m', w, ran, s) = task_schedule_total 0 self rsp m q v known nz in
    let (first, rest) =
      Chosen-first m.cpu_count self (m.cpus self).idle_task u _ w x xs s.turn known waits in
    record {
      after = m';
      waiting = w;
      ran = ap get_machine ran;
      valid = s.valid;
      known = subst (λ c. self < c) (sym s.count) known;
      runs = s.switched.now ∙ first;
      nonzero = nz';
      behind = rest;
    }

-- On a valid state, the task at place `k` of the queue of a CPU with a current task is the current
-- one after `k + 1` calls of `task_schedule` there in a row, wherever these stop the tasks that run.
pub schedules_turn :
    (rsp : ℕ) (rsps : List ℕ) (self : ℕ) (m : Machine) (q : Waiting) (xs ys : List ℕ) (t : ℕ)
    → IsValid m q
    → self < m.cpu_count
    → current m self ≢ 0
    → q self ≡ xs ++ t ∷ ys
    → length rsps ≡ length xs
    → (m' : Machine) × (schedules (rsp ∷ rsps) self (some m) ≡ some m') × (current m' self ≡ t)
unfolding schedules
schedules_turn rsp [] self m q [] ys t v known nz e len =
    let (zs, waits) = outgoing_behind self m q [] ys t e in
    let o = one-Turn self rsp t zs m q v known nz (nonzero_first self t ys m q v known e) waits in
    (o.after, o.ran, o.runs)
schedules_turn rsp [] self m q (x ∷ xs) ys t v known nz e len = absurd (omega arith)
schedules_turn rsp (r ∷ rsps) self m q [] ys t v known nz e len = absurd (omega arith)
schedules_turn rsp (r ∷ rsps) self m q (x ∷ xs) ys t v known nz e len =
    let (zs, waits) = outgoing_behind self m q (x ∷ xs) ys t e in
    let o =
      one-Turn self rsp x (xs ++ t ∷ zs) m q v known nz (nonzero_first self x _ m q v known e)
        waits in
    let (m', ran, here) =
      schedules_turn r rsps self o.after o.waiting xs zs t o.valid o.known
        (λ z. o.nonzero (sym o.runs ∙ z)) o.behind (omega (arith, len)) in
    (m', ap (schedules (r ∷ rsps) self) o.ran ∙ ran, here)
