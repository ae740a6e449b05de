-- ===== src/Vfs/Table.antt =====
-- src/kernel/vfs.c: the table of file descriptors.
use zoho_os.Prelude.{
  ℕ, zero, suc, ◌+◌, ◌^◌, ◌≤◌, ◌<◌, ◌≡◌, ◌≢◌, refl, ap, ◌∙◌, Bool, true, false, List, Option, none,
  some, arith, Bool-cases, inl, inr, ℕ_discrete,
}
use zoho_os.Bytes.{ℤ, pos, negsuc}
use zoho_os.Tar.{Archive}
use zoho_os.Tar.Cache.{IsCoherent, SameBut}
use zoho_os.Tar.Layout.{Layout, FirstNamed, walks_total}
use zoho_os.Vfs.{max_fds, Vfs, free_fd, vfs_open, finish_open, claim_fd}

abbrev pub in_use : Vfs → ℕ → Bool
in_use v i = (v.fd_table i).in_use

-- The first free descriptor from `i` on, of `left` descriptors, or none.
pub data FirstFree (v : Vfs) (i left : ℕ) : Option ℕ → Type 0 where
  full :
      {r : Option ℕ}
      → ((k : ℕ) → i ≤ k → k < i + left → in_use v k ≡ true)
      → r ≡ none
      → FirstFree v i left r
  first :
      {r : Option ℕ} (f : ℕ)
      → i ≤ f
      → f < i + left
      → in_use v f ≡ false
      → ((k : ℕ) → i ≤ k → k < f → in_use v k ≡ true)
      → r ≡ some f
      → FirstFree v i left r

one_more :
    (v : Vfs) (i left : ℕ) (r : Option ℕ)
    → in_use v i ≡ true
    → FirstFree v (i + 1) left r
    → FirstFree v i (suc left) r
one_more v i left r used (full h e) = full (λ k a b. below k a (h k) b) e
  where
    below :
        (k : ℕ)
        → i ≤ k
        → (i + 1 ≤ k → k < i + 1 + left → in_use v k ≡ true)
        → k < i + suc left
        → in_use v k ≡ true
    below k a g b = elim (ℕ_discrete k i) [
      | yes here ↦ ap (in_use v) here ∙ used
      | no there ↦ g (omega arith) (omega arith)
    ]
one_more v i left r used (first f a b free h e) =
    first f (omega arith) (omega arith) free
      (λ k x y. elim (ℕ_discrete k i) [
        | yes here ↦ ap (in_use v) here ∙ used
        | no there ↦ h k (omega arith) y
      ])
      e

free_fd-FirstFree : (left i : ℕ) (v : Vfs) → FirstFree v i left (free_fd left i v)
unfolding free_fd
free_fd-FirstFree zero i v = full (λ k a b. absurd (omega arith)) refl
free_fd-FirstFree (suc left) i v = elim (Bool-cases (in_use v i)) [
  | inl used ↦ rw used (one_more v i left _ used (free_fd-FirstFree left (i + 1) v))
  | inr free ↦
      rw free (first i (omega arith) (omega arith) free (λ k a b. absurd (omega arith)) refl)
]

-- What `vfs_open` makes of the first sector and the size of a file: the first free descriptor gets
-- them, at offset 0, and no other changes; if there is none, nothing changes and the result is -1.
pub data Opened (lba size : ℕ) (v : Vfs) : ℤ → Vfs → Type 0 where
  no_descriptor :
      {fd : ℤ} {v' : Vfs}
      → ((k : ℕ) → k < max_fds → in_use v k ≡ true)
      → fd ≡ negsuc 0
      → v' ≡ v
      → Opened lba size v fd v'
  descriptor :
      {fd : ℤ} {v' : Vfs} (f : ℕ)
      → f < max_fds
      → in_use v f ≡ false
      → ((k : ℕ) → k < f → in_use v k ≡ true)
      → fd ≡ pos f
      → v'.fd_table f ≡ record { start_lba = lba; size = size; offset = 0; in_use = true }
      → ((k : ℕ) → k ≢ f → v'.fd_table k ≡ v.fd_table k)
      → v'.archive ≡ v.archive
      → Opened lba size v fd v'

claimed :
    (lba size : ℕ) (v : Vfs) (r : Option ℕ)
    → FirstFree v 0 max_fds r
    → Opened lba size v (claim_fd lba size r v).0 (claim_fd lba size r v).1
unfolding claim_fd
claimed lba size v r (full h e) =
    rw e (no_descriptor (λ k b. h k (omega arith) (omega arith)) refl refl)
claimed lba size v r (first f a b free h e) = rw e (
    descriptor f (omega arith) free (λ k y. h k (omega arith) y) refl (ground arith)
      (λ k ne. ground arith) refl)

finish_open-Opened :
    (lba size : ℕ) (v : Vfs)
    → Opened lba size v (finish_open (some (lba, size)) v).0 (finish_open (some (lba, size)) v).1
unfolding finish_open
finish_open-Opened lba size v = claimed lba size v _ (free_fd-FirstFree max_fds 0 v)

-- What `vfs_open` does, by the answer of the archive.
abbrev pub OpenedAs : Option (ℕ × ℕ) → Vfs → ℤ → Vfs → Type 0
OpenedAs none v fd v' = (fd ≡ negsuc 0) × (v' ≡ v)
OpenedAs (some (lba, size)) v fd v' = Opened lba size v fd v'

finish_open-OpenedAs :
    (found : Option (ℕ × ℕ)) (v : Vfs)
    → OpenedAs found v (finish_open found v).0 (finish_open found v).1
unfolding finish_open
finish_open-OpenedAs none v = (refl, refl)
finish_open-OpenedAs (some (lba, size)) v = finish_open-Opened lba size v

-- With a coherent cache, an archive in the first half of the sectors and fuel for 20002 headers,
-- `vfs_open` ends. The headers stand as `Layout` says. If one has the name, the first free descriptor
-- gets the file of the first that has it, or the result is -1 if none is free; if not, the result is
-- -1. Nothing else changes but what is cached.
pub vfs_open_total :
    (fuel : ℕ) (path : List ℕ) (v : Vfs)
    → IsCoherent v.archive
    → v.archive.start_lba < 2 ^ 31
    → 20001 < fuel
    → (ls : List ℕ) × (a : Archive) × (found : Option (ℕ × ℕ)) × (fd : ℤ) × (v' : Vfs) × Layout
        v.archive.disk v.archive.start_lba v.archive.start_lba ls
      × FirstNamed v.archive.disk path ls found
      × SameBut v.archive a
      × (vfs_open fuel path v ≡ some (fd, v'))
      × OpenedAs found (record v { archive = a }) fd v'
unfolding vfs_open
vfs_open_total fuel path v c small enough =
    let (ls, h, find, index) = walks_total fuel v.archive c small enough in
    let (found, a, e, named, same) = find path in
    let r = finish_open found (record v { archive = a }) in
    (
      ls,
      a,
      found,
      r.0,
      r.1,
      h,
      named,
      same,
      rw (e, vfs_open) refl,
      finish_open-OpenedAs found (record v { archive = a }),
    )
