-- ===== src/Task/Incoming.antt =====
-- src/kernel/task.c: the switch to the next task keeps the scheduler's state valid.
use zoho_os.Prelude.{
  ℕ, ◌<◌, ◌≡◌, ◌≢◌, refl, ap, sym, ◌∙◌, subst, false, [], ◌∷◌, arith, ◌==◌, if◌then◌else◌, has,
  has-append, Bool-cases, inl, inr, ◌⊎◌, ℕ_discrete,
}
use zoho_os.Task.{Machine, switch_to}
use zoho_os.Task.State.{Waiting, current, QueuesHold, CurrentsApart, IsValid}
use zoho_os.Task.Outgoing.{touch-QueuesHold, with_outgoing}
use zoho_os.Task.Front.{Pulled}

-- The current task of another CPU still waits nowhere once the outgoing task is put back.
pub others_outside :
    (self : ℕ) (m : Machine) (q : Waiting)
    → CurrentsApart m q
    → self < m.cpu_count
    → current m self ≢ 0
    → (i k : ℕ) → i < m.cpu_count
    → k < m.cpu_count
    → i ≢ self
    → has (current m i) (with_outgoing self m q k) ≡ false
unfolding with_outgoing
others_outside self m q a known nz i k hi hk ne = ground (
  arith,
  a.not_waiting i k hi hk,
  a.not_waiting i self hi known,
  has-append (current m i) (q self) (current m self ∷ []),
  apart,
)
  where
    apart : current m i ≢ current m self
    apart e = ne (a.own i self hi known (λ z. nz (sym e ∙ z)) e)

module _ (self : ℕ) (m m₁ m₂ : Machine) (q q₁ w : Waiting) (t₀ : ℕ) (a : CurrentsApart m q)
    (known : self < m.cpu_count) (p : Pulled self m₁ q₁ t₀ m₂ w)
    (count : m₁.cpu_count ≡ m.cpu_count) (currents : (i : ℕ) → current m₂ i ≡ current m i)
    (idles : (i : ℕ) → (m₂.cpus i).idle_task ≡ (m.cpus i).idle_task)
    (outside : (i k : ℕ)
      → i < m.cpu_count
      → k < m.cpu_count
      → i ≢ self
      → has (current m i) (q₁ k) ≡ false) where
  same_count : m₂.cpu_count ≡ m.cpu_count
  same_count = p.count ∙ count

  -- The task that runs next.
  next : ℕ
  next = if t₀ == 0 then (m₂.cpus self).idle_task else t₀

  next-cases : ((t₀ ≡ 0) × (next ≡ (m.cpus self).idle_task)) ⊎ ((t₀ ≢ 0) × (next ≡ t₀))
  unfolding next
  next-cases = elim (ℕ_discrete t₀ 0) [
    | yes none_left ↦ inl (none_left, ground (arith, none_left, idles self))
    | no found ↦ inr (found, ground (arith, found))
  ]

  idle_waits_not :
      (j k : ℕ) → j < m.cpu_count → k < m.cpu_count → has (m.cpus j).idle_task (w k) ≡ false
  idle_waits_not j k hj hk = elim (Bool-cases (has (m.cpus j).idle_task (w k))) [
    | inl waits ↦ absurd (
        p.hold.not_idle k _ (subst (λ n. k < n) (sym same_count) hk) waits (
          subst (λ t. (m₂.tasks t).id ≡ 0) (idles j)
            (p.hold.idle_id j (subst (λ n. j < n) (sym same_count) hj))))
    | inr out ↦ out
  ]

  next_waits_not : (k : ℕ) → k < m.cpu_count → has next (w k) ≡ false
  next_waits_not k hk = elim next-cases [
    | inl (e, n) ↦ rw n (idle_waits_not self k known hk)
    | inr (ne, n) ↦ rw n (p.gone k (subst (λ c. k < c) (sym count) hk))
  ]

  next_own : (j : ℕ) → j < m.cpu_count → next ≡ current m j → j ≡ self
  next_own j hj e = elim (ℕ_discrete j self) [
    | yes here ↦ here
    | no there ↦ elim next-cases [
      | inl (z, n) ↦ a.idle_own j self hj known (sym e ∙ n)
      | inr (nz, n) ↦
          let (k, hk, waits) = p.was nz in
          absurd (ground (arith, waits, n, e, outside j k hj (subst (λ c. k < c) count hk) there))
    ]
  ]

  next_idle : (j : ℕ) → j < m.cpu_count → next ≡ (m.cpus j).idle_task → self ≡ j
  next_idle j hj e = elim next-cases [
    | inl (z, n) ↦ a.idle_distinct self j known hj (sym n ∙ e)
    | inr (nz, n) ↦ absurd (
        p.busy nz (
          subst (λ t. (m₂.tasks t).id ≡ 0) (idles j ∙ sym e ∙ n)
            (p.hold.idle_id j (subst (λ c. j < c) (sym same_count) hj))))
  ]

  after : Machine
  after = (switch_to self next m₂).1

  after_count : after.cpu_count ≡ m.cpu_count
  unfolding after switch_to
  after_count = same_count

  after_current : current after self ≡ next
  unfolding after switch_to
  after_current = ground arith

  after_others : (i : ℕ) → i ≢ self → current after i ≡ current m i
  unfolding after switch_to
  after_others i ne = ground (arith, currents i)

  after_idles : (i : ℕ) → (after.cpus i).idle_task ≡ (m.cpus i).idle_task
  unfolding after switch_to
  after_idles i = ground (arith, idles i)

  after-QueuesHold : QueuesHold after w
  unfolding after switch_to
  after-QueuesHold =
      touch-QueuesHold m₂ w _ next _ m₂.reaped p.hold (λ i. ground arith) (λ i. ground arith)
        (λ i k. next_waits_not i (subst (λ c. i < c) same_count k)) refl

  runs :
      (i : ℕ)
      → ((i ≡ self) × (current after i ≡ next)) ⊎ ((i ≢ self) × (current after i ≡ current m i))
  runs i = elim (ℕ_discrete i self) [
    | yes here ↦ inl (here, ap (current after) here ∙ after_current)
    | no there ↦ inr (there, after_others i there)
  ]

  after_waits_not :
      (i j : ℕ) → i < m.cpu_count → j < m.cpu_count → has (current after i) (w j) ≡ false
  after_waits_not i j hi hj = elim (runs i) [
    | inl (here, e) ↦ rw e (next_waits_not j hj)
    | inr (there, e) ↦ elim (Bool-cases (has (current m i) (w j))) [
      | inl waits ↦ absurd (ground (arith, p.sub j (current m i) waits, outside i j hi hj there))
      | inr out ↦ rw e out
    ]
  ]

  after_own :
      (i j : ℕ)
      → i < m.cpu_count
      → j < m.cpu_count
      → current after i ≢ 0
      → current after i ≡ current after j
      → i ≡ j
  after_own i j hi hj nz e = elim (runs i) [
    | inl (here, f) ↦ elim (runs j) [
      | inl (here', g) ↦ here ∙ sym here'
      | inr (there, g) ↦ here ∙ sym (next_own j hj (sym f ∙ e ∙ g))
    ]
    | inr (there, f) ↦ elim (runs j) [
      | inl (here, g) ↦ next_own i hi (sym g ∙ sym e ∙ f) ∙ sym here
      | inr (there', g) ↦ a.own i j hi hj (λ z. nz (f ∙ z)) (sym f ∙ e ∙ g)
    ]
  ]

  after_idle_own :
      (i j : ℕ)
      → i < m.cpu_count
      → j < m.cpu_count
      → current after i ≡ (after.cpus j).idle_task
      → i ≡ j
  after_idle_own i j hi hj e = elim (runs i) [
    | inl (here, f) ↦ here ∙ next_idle j hj (sym f ∙ e ∙ after_idles j)
    | inr (there, f) ↦ a.idle_own i j hi hj (sym f ∙ e ∙ after_idles j)
  ]

  below : {i : ℕ} → i < after.cpu_count → i < m.cpu_count
  below {i} h = subst (λ c. i < c) after_count h

  pub after-IsValid :
      IsValid (switch_to self (if t₀ == 0 then (m₂.cpus self).idle_task else t₀) m₂).1 w
  unfolding after next
  after-IsValid = record {
    hold = after-QueuesHold;
    apart = record {
      not_waiting = λ i j hi hj. after_waits_not i j (below hi) (below hj);
      own = λ i j hi hj. after_own i j (below hi) (below hj);
      idle_own = λ i j hi hj. after_idle_own i j (below hi) (below hj);
      idle_distinct = λ i j hi hj e.
          a.idle_distinct i j (below hi) (below hj) (sym (after_idles i) ∙ e ∙ after_idles j);
    };
  }
