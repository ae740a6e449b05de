-- ===== src/Kmalloc/History.antt =====
-- src/kernel/kmalloc.c: the heap from `kmalloc_init` on, its statistics, and the frames under it.
use zoho_os.Prelude.{
  ℕ, zero, suc, ◌+◌, ◌*◌, ◌^◌, ◌<◌, ◌≡◌, refl, ap, subst, sym, ◌∙◌, ◌&&◌, Option, none, some, List,
  [], ◌∷◌, arith, if◌then◌else◌, ltb, Bool-cases, Option-cases, inl, inr, length, drop, max,
}
use zoho_os.Pmm.{Pmm, pmm_alloc_frame}
use zoho_os.Pmm.Invariant.{frames, frames-alloc}
use zoho_os.Kmalloc.{
  Block, Heap, header_size, heap_start, heap_size, word64, kmalloc, kfree, kmalloc_init,
  take_frames, kmalloc_get_stats, free_bytes, largest_free, first_block,
}
use zoho_os.Kmalloc.Shape.{used_bytes, unused_bytes, live, Apart, IsValid, Tiles-total, live-Apart}
use zoho_os.Kmalloc.Alloc.{kmalloc-IsValid}
use zoho_os.Kmalloc.Free.{kfree-IsValid}

pub init-IsValid : (p : Pmm) → IsValid (kmalloc_init p).1
unfolding kmalloc_init first_block
init-IsValid p = record { tiles = omega arith; coalesced = (refl, tt); used = refl; count = refl }

pub data Call : Type 0 where
  allocs frees : ℕ → Call

-- `none`: a pointer was freed that no header stands before.
unfoldable pub step : Heap → Call → Option Heap
step h (allocs size) = some (kmalloc size h).1
step h (frees ptr) = kfree ptr h

unfoldable pub run : Option Heap → List Call → Option Heap
run none cs = none
run (some h) [] = some h
run (some h) (c ∷ cs) = run (step h c) cs

step-IsValid : (h h' : Heap) (c : Call) → IsValid h → step h c ≡ some h' → IsValid h'
unfolding step
step-IsValid h h' (allocs size) v e = subst IsValid (ground (arith, e)) (kmalloc-IsValid h size v)
step-IsValid h h' (frees ptr) v e = kfree-IsValid h h' ptr v e

-- Any history of calls that corrupts no header leaves a well-formed heap.
pub run-IsValid :
    (cs : List Call) (h h' : Heap) → IsValid h → run (some h) cs ≡ some h' → IsValid h'
unfolding run
run-IsValid [] h h' v e = subst IsValid (ground (arith, e)) v
run-IsValid (c ∷ cs) h h' v e = elim (Option-cases (step h c)) [
  | inl fault ↦ absurd (stuck cs (ap (λ o. run o cs) (sym fault) ∙ e))
  | inr (g, ok) ↦ run-IsValid cs g h' (step-IsValid h g c v ok) (ap (λ o. run o cs) (sym ok) ∙ e)
]
  where
    stuck : (cs : List Call) → run none cs ≡ some h' → ⊥
    stuck [] p = cc
    stuck (d ∷ ds) p = cc

-- From boot on, after any history of calls that corrupts no header, live allocations are aligned to 8 bytes, lie inside the heap and do not overlap.
pub run-Apart :
    (p : Pmm) (cs : List Call) (h : Heap)
    → run (some (kmalloc_init p).1) cs ≡ some h
    → Apart heap_start (live h.blocks) (heap_start + heap_size)
run-Apart p cs h e =
    let v = run-IsValid cs (kmalloc_init p).1 h (init-IsValid p) e in
    live-Apart heap_start (heap_start + heap_size) h.blocks (omega arith) v.tiles

-- The walk of `kmalloc_get_stats`.
free_bytes-unused :
    (acc : ℕ) (bs : List Block)
    → acc + unused_bytes bs < 2 ^ 64
    → free_bytes bs acc ≡ acc + unused_bytes bs
unfolding free_bytes
free_bytes-unused acc [] h = omega arith
free_bytes-unused acc (b ∷ rest) h = elim (Bool-cases b.is_free) [
  | inl free ↦
      rw (free, free_bytes) (ground (arith, free_bytes-unused (word64 (acc + b.size)) rest))
  | inr used ↦ rw (used, free_bytes) (ground (arith, free_bytes-unused acc rest))
]

-- The size of the largest free block, 0 if there is none.
abbrev pub largest_unused : List Block → ℕ
largest_unused [] = 0
largest_unused (b ∷ rest) = max (if b.is_free then b.size else 0) (largest_unused rest)

largest_free-max :
    (best : ℕ) (bs : List Block) → largest_free bs best ≡ max best (largest_unused bs)
unfolding largest_free
largest_free-max best [] = omega arith
largest_free-max best (b ∷ rest) =
    ground (arith, largest_free-max (if b.is_free && ltb best b.size then b.size else best) rest)

-- On a well-formed heap the summary accounts for every byte (what is in use, what is free, and a header for each block)
-- and tells the largest free block.
pub get_stats_total :
    (h : Heap)
    → IsValid h
    → let s = (kmalloc_get_stats h).0 in
      (s.bytes_used + s.bytes_free + header_size * length h.blocks ≡ heap_size)
      × (s.largest_free_block ≡ largest_unused h.blocks)
unfolding kmalloc_get_stats
get_stats_total h v = (
  omega (arith, v.used, whole, free_bytes-unused 0 h.blocks (omega (arith, whole))),
  omega (arith, largest_free-max 0 h.blocks),
)
  where
    whole :
        heap_start + used_bytes h.blocks + unused_bytes h.blocks + header_size * length h.blocks
        ≡ heap_start + heap_size
    whole = Tiles-total heap_start (heap_start + heap_size) h.blocks v.tiles

drop-drop_one : (n : ℕ) (xs : List ℕ) → drop n (drop 1 xs) ≡ drop (suc n) xs
drop-drop_one zero [] = refl
drop-drop_one (suc n) [] = refl
drop-drop_one n (x ∷ xs) = refl

-- `kmalloc_init` takes the frames that lie on top of the free stack, wherever they are in memory:
-- every frame below them stays free, be it under the heap or not.
pub frames-take_frames : (n : ℕ) (p : Pmm) → frames (take_frames n p) ≡ drop n (frames p)
unfolding take_frames
frames-take_frames zero p = refl
frames-take_frames (suc n) p =
    frames-take_frames n (pmm_alloc_frame p).1
    ∙ ap (drop n) (frames-alloc p)
    ∙ drop-drop_one n (frames p)
