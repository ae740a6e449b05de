-- ===== src/Lock/Exclusion.antt =====
-- src/kernel/lock.c: at most one CPU holds the lock.
use zoho_os.Prelude.{
  ℕ, ◌≡◌, refl, ap, sym, ◌∙◌, subst, Bool, true, false, List, [], ◌∷◌, arith, update, ℕ_discrete,
  ==_of_ne,
}
use zoho_os.Lock.{
  Spinlock, Place, outside, testing, at_acquisitions, at_contentions, at_spin_loops, holding, Cpus,
  move, step_at, step, run, spin_init,
}

-- Past the test-and-set that found the lock free, and not yet past the release.
abbrev pub inside : Place → Bool
inside outside = false
inside (testing spins) = false
inside _ = true

pub record IsValid (c : Cpus) : Type 0 where
  pub taken : (i : ℕ) → inside (c.places i) ≡ true → c.lock.locked ≡ 1
  pub alone : (i j : ℕ) → inside (c.places i) ≡ true → inside (c.places j) ≡ true → i ≡ j

-- A CPU moves to `p`, being inside there only if it was before.
module _ (i : ℕ) (p : Place) (l : Spinlock) (c : Cpus) (v : IsValid c)
    (kept : inside p ≡ true → inside (c.places i) ≡ true) where
  was_inside : (j : ℕ) → inside ((move i p l c).places j) ≡ true → inside (c.places j) ≡ true
  unfolding move
  was_inside j h = elim (ℕ_discrete j i) [
    | yes here ↦ subst (λ k. inside (c.places k) ≡ true) (sym here) (kept (ground (arith, h, here)))
    | no there ↦ ground (arith, h)
  ]

  move-IsValid :
      ((j : ℕ) → inside ((move i p l c).places j) ≡ true → l.locked ≡ 1) → IsValid (move i p l c)
  unfolding move
  move-IsValid taken = record {
    taken = taken;
    alone = λ j k g h. v.alone j k (was_inside j g) (was_inside k h);
  }

  same-IsValid : l.locked ≡ c.lock.locked → IsValid (move i p l c)
  same-IsValid e = move-IsValid (λ j h. e ∙ v.taken j (was_inside j h))

enter-IsValid :
    (i : ℕ) (p : Place) (l : Spinlock) (c : Cpus)
    → IsValid c
    → c.lock.locked ≡ 0
    → l.locked ≡ 1
    → IsValid (move i p l c)
unfolding move
enter-IsValid i p l c v free e = record {
  taken = λ j h. e;
  alone = λ j k g h. here j g ∙ sym (here k h);
}
  where
    here : (j : ℕ) → inside (update c.places i p j) ≡ true → j ≡ i
    here j h = elim (ℕ_discrete j i) [
      | yes same ↦ same
      | no other ↦ absurd (ground (arith, h, v.taken j))
    ]

leave-IsValid :
    (i : ℕ) (l : Spinlock) (c : Cpus)
    → inside (c.places i) ≡ true
    → IsValid c
    → IsValid (move i outside l c)
unfolding move
leave-IsValid i l c e v =
    move-IsValid i outside l c v (λ h. absurd cc)
      λ j h. elim (ℕ_discrete j i) [
        | yes here ↦ absurd (ground (arith, h))
        | no there ↦ absurd (there (v.alone j i (ground (arith, h)) e))
      ]

step_at-IsValid :
    (p : Place) (i : ℕ) (c : Cpus) → c.places i ≡ p → IsValid c → IsValid (step_at p i c)
unfolding step_at
step_at-IsValid outside i c e v = same-IsValid i _ c.lock c v (λ h. absurd cc) refl
step_at-IsValid (testing spins) i c e v = elim (ℕ_discrete c.lock.locked 0) [
  | yes free ↦ enter-IsValid i _ _ c v free refl
  | no busy ↦
      rw (==_of_ne c.lock.locked 0 busy) (move-IsValid i _ _ c v (λ h. absurd cc) (λ j h. refl))
]
step_at-IsValid (at_acquisitions spins) i c e v = same-IsValid i _ _ c v (λ h. ap inside e) refl
step_at-IsValid (at_contentions spins) i c e v = same-IsValid i _ _ c v (λ h. ap inside e) refl
step_at-IsValid (at_spin_loops spins) i c e v = same-IsValid i _ _ c v (λ h. ap inside e) refl
step_at-IsValid holding i c e v = leave-IsValid i _ c (ap inside e) v

-- Every step of a CPU keeps it so that the lock is taken while a CPU is inside, and by one alone.
step-IsValid : (i : ℕ) (c : Cpus) → IsValid c → IsValid (step i c)
unfolding step
step-IsValid i c v = step_at-IsValid (c.places i) i c refl v

always-IsValid : (is : List ℕ) (c : Cpus) → IsValid c → IsValid (run is c)
unfolding run
always-IsValid [] c v = v
always-IsValid (i ∷ is) c v = always-IsValid is (step i c) (step-IsValid i c v)

-- A lock that was just initialised, with all CPUs outside.
abbrev pub fresh : Cpus
fresh = record { lock = spin_init; places = λ k. outside }

-- From a fresh lock with all CPUs outside, whichever CPUs take steps in whichever order, two CPUs
-- that are inside are the same, and the lock is taken then.
pub run-Exclusive :
    (is : List ℕ) (i j : ℕ)
    → inside ((run is fresh).places i) ≡ true
    → inside ((run is fresh).places j) ≡ true
    → (i ≡ j) × ((run is fresh).lock.locked ≡ 1)
run-Exclusive is i j g h =
    let v =
      always-IsValid is fresh (record { taken = λ k e. absurd cc; alone = λ k l e f. absurd cc }) in
    (v.alone i j g h, v.taken i g)
