-- ===== src/Lock/Registry.antt =====
-- src/kernel/lock.c: the locks by name, and their counters. Each function is one step.
use zoho_os.Prelude.{
  ℕ, ◌+◌, ◌%◌, ◌^◌, ◌<◌, ◌≡◌, ◌≢◌, Option, none, some, arith, ◌==◌, ltb, leb, if◌then◌else◌, update,
}
use zoho_os.Lock.{Spinlock, spin_init}

-- `spinlock_t` with its name; a pointer to a name is a number.
pub record NamedLock : Type 0 where
  pub lock : Spinlock
  pub name : ℕ

-- The locks by their addresses, `registered_locks` and `registered_lock_count`.
pub record Registry : Type 0 where
  pub locks : ℕ → NamedLock
  pub registered_locks : ℕ → ℕ
  pub registered_lock_count : ℕ

-- The size of `registered_locks`.
abbrev pub capacity : ℕ
capacity = 64

unfoldable pub spin_init_named : ℕ → ℕ → Registry → Registry
spin_init_named lock name r =
    let index = r.registered_lock_count in
    record {
      locks = update r.locks lock (record { lock = spin_init; name = name });
      registered_locks =
          if ltb index capacity then update r.registered_locks index lock else r.registered_locks;
      registered_lock_count = (index + 1) % 2 ^ 32;
    }

unfoldable pub lock_get_registered_count : Registry → ℕ
lock_get_registered_count r =
    if ltb r.registered_lock_count capacity then r.registered_lock_count else capacity

-- `lock_stats_t`
pub record LockStats : Type 0 where
  pub name : ℕ
  pub acquisitions : ℕ
  pub contentions : ℕ
  pub spin_loops : ℕ

-- What `out_stats` receives; `none` is the result 0, where nothing is written.
unfoldable pub lock_get_stats : ℕ → ℕ → Registry → Option LockStats
unfolding lock_get_registered_count
lock_get_stats index out_stats r =
    let this = r.registered_locks index in
    let l = r.locks this in
    if out_stats == 0
    then none
    else if leb (lock_get_registered_count r) index
    then none
    else if this == 0
    then none
    else some (record {
      name = l.name;
      acquisitions = l.lock.acquisitions;
      contentions = l.lock.contentions;
      spin_loops = l.lock.spin_loops;
    })

-- A lock that is registered while there is room is found under the next index, with its name and all
-- counters 0, and the other entries tell what they told, if they are for other locks.
pub lock_get_stats-spin_init_named :
    (lock name out : ℕ) (r : Registry)
    → lock ≢ 0
    → out ≢ 0
    → r.registered_lock_count < capacity
    → (lock_get_stats r.registered_lock_count out (spin_init_named lock name r)
        ≡ some (record { name = name; acquisitions = 0; contentions = 0; spin_loops = 0 }))
      × ((i : ℕ)
          → i < r.registered_lock_count
          → r.registered_locks i ≢ lock
          → lock_get_stats i out (spin_init_named lock name r) ≡ lock_get_stats i out r)
unfolding lock_get_stats spin_init_named lock_get_registered_count
lock_get_stats-spin_init_named lock name out r n o h =
    (ground (arith, n, o, h), λ i l ne. ground (arith, n, o, h, l, ne))
