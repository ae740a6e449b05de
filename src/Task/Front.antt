-- ===== src/Task/Front.antt =====
-- src/kernel/task.c: where `task_schedule` takes the next task from.
use zoho_os.Prelude.{
  ℕ, ◌<◌, ◌≡◌, ◌≢◌, refl, ap, ◌∙◌, subst, true, false, List, [], ◌∷◌, arith, ◌==◌, if◌then◌else◌,
  update, has, Bool-cases, inl, inr, ℕ_discrete, ==_of_ne,
}
use zoho_os.Task.{ready, Machine, dequeue_task, steal_one, pull}
use zoho_os.Task.Queue.{IsQueue, dequeue-IsQueue}
use zoho_os.Task.State.{Waiting, current, QueuesHold, set_queue, dequeue-QueuesHold}
use zoho_os.Task.Outgoing.{touch-QueuesHold}

-- The task that CPU `self` runs next when `q` waits, and what waits afterwards: the first of its
-- own queue, else the first of the first other queue that has one, else `none_left` for none.
pub data Chosen (n self none_left : ℕ) (q : Waiting) : ℕ → Waiting → Type 0 where
  own :
      {t : ℕ} {xs : List ℕ} {w : Waiting}
      → q self ≡ t ∷ xs
      → w ≡ update q self xs
      → Chosen n self none_left q t w
  stolen :
      {t : ℕ} {w : Waiting} (j : ℕ) (xs : List ℕ)
      → j < n
      → j ≢ self
      → q self ≡ []
      → ((i : ℕ) → i < j → i ≢ self → q i ≡ [])
      → q j ≡ t ∷ xs
      → w ≡ update q j xs
      → Chosen n self none_left q t w
  idle :
      {t : ℕ} {w : Waiting}
      → ((i : ℕ) → i < n → q i ≡ [])
      → t ≡ none_left
      → w ≡ q
      → Chosen n self none_left q t w

-- What `pull` on CPU `self` gives: task `t` in state `m'`, where `w` waits.
pub record Pulled (self : ℕ) (m : Machine) (q : Waiting) (t : ℕ) (m' : Machine) (w : Waiting)
    : Type 0 where
  pub chosen :
      (none_left : ℕ) → Chosen m.cpu_count self none_left q (if t == 0 then none_left else t) w
  pub was : t ≢ 0 → (k : ℕ) × (k < m.cpu_count) × (has t (q k) ≡ true)
  pub sub : (i u : ℕ) → has u (w i) ≡ true → has u (q i) ≡ true
  pub hold : QueuesHold m' w
  pub is_ready : t ≢ 0 → (m'.tasks t).state ≡ ready
  pub busy : t ≢ 0 → (m'.tasks t).id ≢ 0
  pub gone : (i : ℕ) → i < m.cpu_count → has t (w i) ≡ false
  pub count : m'.cpu_count ≡ m.cpu_count
  pub currents : (i : ℕ) → current m' i ≡ current m i
  pub idles : (i : ℕ) → (m'.cpus i).idle_task ≡ (m.cpus i).idle_task
  pub no_reap : m'.reaped ≡ m.reaped

-- The first task of the queue of CPU `j`.
pub record Front (m : Machine) (q : Waiting) (j x : ℕ) (xs : List ℕ) : Type 0 where
  pub got : (dequeue_task (m.cpus j).runqueue m.tasks).0 ≡ x
  pub nonzero : x ≢ 0
  pub member : has x (q j) ≡ true
  pub was_ready : (m.tasks x).state ≡ ready
  pub was_busy : (m.tasks x).id ≢ 0
  pub left :
      QueuesHold
        (set_queue j (dequeue_task (m.cpus j).runqueue m.tasks).1 m.tasks m)
        (update q j xs)
  pub gone : (i : ℕ) → i < m.cpu_count → has x (update q j xs i) ≡ false

pub front :
    (m : Machine) (q : Waiting) (j x : ℕ) (xs : List ℕ)
    → QueuesHold m q
    → j < m.cpu_count
    → q j ≡ x ∷ xs
    → Front m q j x xs
front m q j x xs h k e =
    let iq : IsQueue m.tasks (m.cpus j).runqueue (x ∷ xs) =
      subst (IsQueue m.tasks (m.cpus j).runqueue) e (h.queues j k) in
    let member : has x (q j) ≡ true = ground (arith, ap (has x) e) in
    record {
      got = (dequeue-IsQueue m.tasks (m.cpus j).runqueue x xs iq).0;
      nonzero = iq.chain.1;
      member = member;
      was_ready = h.all_ready j x k member;
      was_busy = h.not_idle j x k member;
      left = dequeue-QueuesHold j x xs m q k h e;
      gone = λ i ki. elim (ℕ_discrete i j) [
        | yes here ↦ ground (arith, iq.distinct.0)
        | no there ↦ elim (Bool-cases (has x (q i))) [
          | inl both ↦ absurd (there (h.in_one i j x ki k both member))
          | inr out ↦ ground (arith, out)
        ]
      ];
    }

pub sub_update :
    (q : Waiting) (j x : ℕ) (xs : List ℕ)
    → q j ≡ x ∷ xs
    → (i u : ℕ) → has u (update q j xs i) ≡ true
    → has u (q i) ≡ true
sub_update q j x xs e i u h = elim (ℕ_discrete i j) [
  | yes here ↦ ground (arith, h, ap (has u) (ap q here ∙ e))
  | no there ↦ ground (arith, h)
]

pub pull_own :
    (self x : ℕ) (xs : List ℕ) (m : Machine) (q : Waiting)
    → QueuesHold m q
    → self < m.cpu_count
    → q self ≡ x ∷ xs
    → (m' : Machine) × (pull self m ≡ (x, m')) × Pulled self m q x m' (update q self xs)
unfolding pull
pull_own self x xs m q h known e =
    let f = front m q self x xs h known e in
    (
      set_queue self (dequeue_task (m.cpus self).runqueue m.tasks).1 m.tasks m,
      ground (arith, f.got, f.nonzero),
      record {
        chosen = λ d. rw (==_of_ne x 0 f.nonzero) (own e refl);
        was = λ nz. (self, known, f.member);
        sub = sub_update q self x xs e;
        hold = f.left;
        is_ready = λ nz. f.was_ready;
        busy = λ nz. f.was_busy;
        gone = f.gone;
        count = refl;
        currents = λ i. ground arith;
        idles = λ i. ground arith;
        no_reap = refl;
      },
    )

pub nothing_stolen :
    (self : ℕ) (m : Machine) (q : Waiting)
    → QueuesHold m q
    → ((k : ℕ) → k < m.cpu_count → q k ≡ [])
    → Pulled self m q 0 m q
nothing_stolen self m q h empty = record {
  chosen = λ d. idle empty refl refl;
  was = λ nz. absurd (nz refl);
  sub = λ i u e. e;
  hold = h;
  is_ready = λ nz. absurd (nz refl);
  busy = λ nz. absurd (nz refl);
  gone = λ k hk. ap (has 0) (empty k hk);
  count = refl;
  currents = λ k. refl;
  idles = λ k. refl;
  no_reap = refl;
}

pub one_stolen :
    (self i x : ℕ) (xs : List ℕ) (m : Machine) (q : Waiting)
    → QueuesHold m q
    → i < m.cpu_count
    → i ≢ self
    → q self ≡ []
    → ((k : ℕ) → k < i → k ≢ self → q k ≡ [])
    → q i ≡ x ∷ xs
    → Pulled self m q x
        (steal_one self i x (dequeue_task (m.cpus i).runqueue m.tasks).1 m)
        (update q i xs)
unfolding steal_one
one_stolen self i x xs m q h k ne none_here before e =
    let f = front m q i x xs h k e in
    record {
      chosen = λ d. rw (==_of_ne x 0 f.nonzero) (stolen i xs k ne none_here before e refl);
      was = λ nz. (i, k, f.member);
      sub = sub_update q i x xs e;
      hold =
          touch-QueuesHold (set_queue i (dequeue_task (m.cpus i).runqueue m.tasks).1 m.tasks m)
            (update q i xs) _ x _ _ f.left (λ j. refl) (λ j. refl) f.gone refl;
      is_ready = λ nz. ground (arith, f.was_ready);
      busy = λ nz. ground (arith, f.was_busy);
      gone = f.gone;
      count = refl;
      currents = λ j. ground arith;
      idles = λ j. ground arith;
      no_reap = refl;
    }
