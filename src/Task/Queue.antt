-- ===== src/Task/Queue.antt =====
-- src/kernel/task.c: a run queue, a chain of `next` pointers, behaves as a list of tasks.
use zoho_os.Prelude.{
  ℕ, ◌+◌, ◌-◌, ◌^◌, ◌≡◌, ◌≢◌, refl, sym, subst, true, false, List, [], ◌∷◌, ◌++◌, arith, ◌==◌,
  if◌then◌else◌, length, length-append, has, has-append, Distinct,
}
use zoho_os.Task.{Tasks, Runqueue, word32, set_next, enqueue_task, dequeue_task}

-- From `p` the `next` pointers lead through `xs` to NULL.
abbrev pub Chain : Tasks → ℕ → List ℕ → Type 0
Chain ts p [] = p ≡ 0
Chain ts p (x ∷ xs) = (p ≡ x) × (x ≢ 0) × Chain ts (ts x).next xs

abbrev pub last_or : ℕ → List ℕ → ℕ
last_or d [] = d
last_or d (x ∷ xs) = last_or x xs

-- The queue holds `xs`, the next to run first.
pub record IsQueue (ts : Tasks) (rq : Runqueue) (xs : List ℕ) : Type 0 where
  pub chain : Chain ts rq.head xs
  pub tail_last : rq.tail ≡ last_or 0 xs
  pub counted : rq.count ≡ word32 (length xs)
  pub distinct : Distinct xs

-- A chain does not see changes to tasks outside it, nor to fields other than `next`.
pub Chain-frame :
    (ts us : Tasks) (p : ℕ) (xs : List ℕ)
    → ((t : ℕ) → has t xs ≡ true → (us t).next ≡ (ts t).next)
    → Chain ts p xs
    → Chain us p xs
Chain-frame ts us p [] same c = c
Chain-frame ts us p (x ∷ xs) same c = (
  c.0,
  c.1,
  Chain-frame ts us (us x).next xs (λ t h. same t (ground arith))
      (subst (λ q. Chain ts q xs) (sym (same x (ground arith))) c.2),
)

pub IsQueue-frame :
    (ts us : Tasks) (rq : Runqueue) (xs : List ℕ)
    → ((t : ℕ) → has t xs ≡ true → (us t).next ≡ (ts t).next)
    → IsQueue ts rq xs
    → IsQueue us rq xs
IsQueue-frame ts us rq xs same q = record {
  chain = Chain-frame ts us rq.head xs same q.chain;
  tail_last = q.tail_last;
  counted = q.counted;
  distinct = q.distinct;
}

last_or-append : (d t : ℕ) (xs : List ℕ) → last_or d (xs ++ t ∷ []) ≡ t
last_or-append d t [] = refl
last_or-append d t (x ∷ xs) = last_or-append x t xs

Distinct-append : (t : ℕ) (xs : List ℕ) → has t xs ≡ false → Distinct xs → Distinct (xs ++ t ∷ [])
Distinct-append t [] h d = (refl, tt)
Distinct-append t (x ∷ xs) h d = ground (arith, Distinct-append t xs, has-append x xs (t ∷ []))

last_or-has : (x : ℕ) (xs : List ℕ) → has (last_or x xs) (x ∷ xs) ≡ true
last_or-has x [] = ground arith
last_or-has x (y ∷ xs) = ground (arith, last_or-has y xs)

has_ne : (a b : ℕ) (xs : List ℕ) → has a xs ≡ true → has b xs ≡ false → b ≢ a
has_ne a b xs h k e = cc

-- Linking `t` behind the last task of a chain.
link_last :
    (ts : Tasks) (t p x : ℕ) (xs : List ℕ)
    → t ≢ 0
    → has t (x ∷ xs) ≡ false
    → Distinct (x ∷ xs)
    → Chain ts p (x ∷ xs)
    → Chain (set_next (set_next ts t 0) (last_or x xs) t) p (x ∷ xs ++ t ∷ [])
link_last ts t p x [] nz out d c = (c.0, c.1, (ground arith, nz, ground arith))
link_last ts t p x (y ∷ xs) nz out d c = (
  c.0,
  c.1,
  subst (λ q. Chain us q (y ∷ xs ++ t ∷ [])) (sym same)
      (link_last ts t (ts x).next y xs nz (ground arith) d.1 c.2),
)
  where
    us : Tasks
    us = set_next (set_next ts t 0) (last_or y xs) t

    same : (us x).next ≡ (ts x).next
    same = ground (arith, last_or-has y xs, d.0, has_ne (last_or y xs) x (y ∷ xs))

last_nonzero : (ts : Tasks) (p x : ℕ) (xs : List ℕ) → Chain ts p (x ∷ xs) → last_or x xs ≢ 0
last_nonzero ts p x [] c = c.1
last_nonzero ts p x (y ∷ xs) c = last_nonzero ts (ts x).next y xs c.2

enqueue_first :
    (ts : Tasks) (rq : Runqueue) (t : ℕ)
    → rq.tail ≡ 0
    → enqueue_task rq t ts
      ≡ (record { head = t; tail = t; count = word32 (rq.count + 1) }, set_next ts t 0)
unfolding enqueue_task
enqueue_first ts rq t e = ground arith

enqueue_behind :
    (ts : Tasks) (rq : Runqueue) (t l : ℕ)
    → rq.tail ≡ l
    → l ≢ 0
    → enqueue_task rq t ts
      ≡ (record rq { tail = t; count = word32 (rq.count + 1) }, set_next (set_next ts t 0) l t)
unfolding enqueue_task
enqueue_behind ts rq t l e nz = ground arith

-- `enqueue_task` appends a task that is not NULL and not in the queue yet, and writes the `next`
-- pointers of that task and of tasks in the queue alone.
pub enqueue-IsQueue :
    (ts : Tasks) (rq : Runqueue) (xs : List ℕ) (t : ℕ)
    → IsQueue ts rq xs
    → t ≢ 0
    → has t xs ≡ false
    → let (rq', ts') = enqueue_task rq t ts in
      IsQueue ts' rq' (xs ++ t ∷ [])
      × ((u : ℕ) → u ≢ t → has u xs ≡ false → (ts' u).next ≡ (ts u).next)
enqueue-IsQueue ts rq [] t q nz out = rw (enqueue_first ts rq t q.tail_last) (
  record {
    chain = (refl, nz, ground arith);
    tail_last = refl;
    counted = omega (arith, q.counted);
    distinct = (refl, tt);
  },
  λ u d h. ground arith,
)
enqueue-IsQueue ts rq (x ∷ xs) t q nz out =
    rw (enqueue_behind ts rq t (last_or x xs) q.tail_last (last_nonzero ts rq.head x xs q.chain)) (
      record {
        chain = link_last ts t rq.head x xs nz out q.distinct q.chain;
        tail_last = sym (last_or-append x t xs);
        counted = omega (arith, q.counted, length-append xs (t ∷ []));
        distinct = Distinct-append t (x ∷ xs) out q.distinct;
      },
      λ u d h. ground (arith, has_ne (last_or x xs) u (x ∷ xs), last_or-has x xs),
    )

dequeue_head :
    (ts : Tasks) (rq : Runqueue) (x : ℕ)
    → rq.head ≡ x
    → x ≢ 0
    → dequeue_task rq ts ≡ (
      x,
      record {
        head = (ts x).next;
        tail = if (ts x).next == 0 then 0 else rq.tail;
        count = word32 (rq.count + 2 ^ 32 - 1);
      },
    )
unfolding dequeue_task
dequeue_head ts rq x e nz = ground arith

-- `dequeue_task` on a queue that holds a nonempty list takes its first task off and keeps the others.
pub dequeue-IsQueue :
    (ts : Tasks) (rq : Runqueue) (x : ℕ) (xs : List ℕ)
    → IsQueue ts rq (x ∷ xs)
    → ((dequeue_task rq ts).0 ≡ x) × IsQueue ts (dequeue_task rq ts).1 xs
dequeue-IsQueue ts rq x [] q = rw (dequeue_head ts rq x q.chain.0 q.chain.1) (
  refl,
  record {
    chain = q.chain.2;
    tail_last = ground (arith, q.chain);
    counted = omega (arith, q.counted);
    distinct = tt;
  },
)
dequeue-IsQueue ts rq x (y ∷ xs) q = rw (dequeue_head ts rq x q.chain.0 q.chain.1) (
  refl,
  record {
    chain = q.chain.2;
    tail_last = ground (arith, q.chain, q.tail_last);
    counted = omega (arith, q.counted);
    distinct = q.distinct.1;
  },
)

pub dequeue_empty : (ts : Tasks) (rq : Runqueue) → IsQueue ts rq [] → dequeue_task rq ts ≡ (0, rq)
unfolding dequeue_task
dequeue_empty ts rq q = ground (arith, q.chain)

-- It changes no other field that the scheduler reads.
pub enqueue_keeps :
    (rq : Runqueue) (t : ℕ) (ts : Tasks) (u : ℕ)
    → let us = (enqueue_task rq t ts).1 in ((us u).state ≡ (ts u).state) × ((us u).id ≡ (ts u).id)
unfolding enqueue_task
enqueue_keeps rq t ts u = ground arith
