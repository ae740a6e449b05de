-- ===== src/Lock/Progress.antt =====
-- src/kernel/lock.c: a released lock can be taken.
use zoho_os.Prelude.{
  ℕ, ◌≡◌, ◌+◌, refl, ap, sym, ◌∙◌, subst, Bool, true, false, List, [], ◌∷◌, arith, ◌==◌,
  if◌then◌else◌, update, ℕ_discrete, ==_of_ne,
}
use zoho_os.Lock.{
  Place, outside, testing, at_acquisitions, at_contentions, at_spin_loops, holding, Cpus, move,
  step_at, step, run, word64,
}
use zoho_os.Lock.Exclusion.{inside, fresh}

abbrev Empty : Cpus → Type 0
Empty c = (j : ℕ) → inside (c.places j) ≡ false

-- The lock is free whenever no CPU is inside.
abbrev FreeIfEmpty : Cpus → Type 0
FreeIfEmpty c = Empty c → c.lock.locked ≡ 0

was-Empty :
    (i : ℕ) (p : Place) (c : Cpus)
    → inside (c.places i) ≡ inside p
    → ((j : ℕ) → inside (update c.places i p j) ≡ false)
    → Empty c
was-Empty i p c same empty j = elim (ℕ_discrete j i) [
  | yes here ↦ subst (λ k. inside (c.places k) ≡ false) (sym here) (same ∙ ground (arith, empty i))
  | no there ↦ ground (arith, empty j)
]

counting : (b : Bool) (spins : ℕ) → inside (if b then holding else at_contentions spins) ≡ true
counting true spins = refl
counting false spins = refl

retests :
    (b : Bool) (spins : ℕ)
    → b ≡ false
    → inside (if b then at_acquisitions spins else testing (word64 (spins + 1))) ≡ false
retests true spins e = cc
retests false spins e = refl

step_at-FreeIfEmpty :
    (p : Place) (i : ℕ) (c : Cpus) → c.places i ≡ p → FreeIfEmpty c → FreeIfEmpty (step_at p i c)
unfolding step_at move
step_at-FreeIfEmpty outside i c e f empty = f (was-Empty i _ c (ap inside e) empty)
step_at-FreeIfEmpty (testing spins) i c e f empty = elim (ℕ_discrete c.lock.locked 0) [
  | yes free ↦ absurd (ground (arith, free, empty i))
  | no busy ↦ absurd (
      busy (
        f (
          was-Empty i _ c
            (ap inside e ∙ sym (retests (c.lock.locked == 0) spins (==_of_ne c.lock.locked 0 busy)))
            empty)))
]
step_at-FreeIfEmpty (at_acquisitions spins) i c e f empty =
    f (was-Empty i _ c (ap inside e ∙ sym (counting (spins == 0) spins)) empty)
step_at-FreeIfEmpty (at_contentions spins) i c e f empty = f (was-Empty i _ c (ap inside e) empty)
step_at-FreeIfEmpty (at_spin_loops spins) i c e f empty = f (was-Empty i _ c (ap inside e) empty)
step_at-FreeIfEmpty holding i c e f empty = refl

always-FreeIfEmpty : (is : List ℕ) (c : Cpus) → FreeIfEmpty c → FreeIfEmpty (run is c)
unfolding run step
always-FreeIfEmpty [] c f = f
always-FreeIfEmpty (i ∷ is) c f =
    always-FreeIfEmpty is (step i c) (step_at-FreeIfEmpty (c.places i) i c refl f)

gets_in :
    (i spins : ℕ) (c : Cpus)
    → c.places i ≡ testing spins
    → c.lock.locked ≡ 0
    → inside ((step i c).places i) ≡ true
unfolding step step_at move
gets_in i spins c e free = rw e (ground (arith, free))

-- From a fresh lock with all CPUs outside, after any steps in any order: if no CPU is inside, the
-- next step of any CPU that tests the lock brings it inside.
pub run_enters :
    (is : List ℕ) (i spins : ℕ)
    → ((j : ℕ) → inside ((run is fresh).places j) ≡ false)
    → (run is fresh).places i ≡ testing spins
    → inside ((step i (run is fresh)).places i) ≡ true
run_enters is i spins empty e =
    gets_in i spins (run is fresh) e (always-FreeIfEmpty is fresh (λ z. refl) empty)
