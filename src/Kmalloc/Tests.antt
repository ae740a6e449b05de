-- ===== src/Kmalloc/Tests.antt =====
-- src/kernel/kmalloc.c: the theorems of the heap at concrete states, and runs of its code.
use zoho_os.Prelude.{◌*◌, ◌≡◌, refl, Option, none, some, true, false, List, [], ◌∷◌, arith}
use zoho_os.Pmm.{Pmm}
use zoho_os.Kmalloc.{
  Block, Heap, Stats, kmalloc_init, kmalloc, kfree, take_frames, align8, find_block, merge,
  mark_free, merge_from,
}
use zoho_os.Kmalloc.Shape.{Apart, IsValid}
use zoho_os.Kmalloc.Alloc.{Grown, kmalloc-Grown, kmalloc_fails}
use zoho_os.Kmalloc.Free.{Shrunk, kfree-Shrunk}
use zoho_os.Kmalloc.Undo.{kfree-kmalloc}
use zoho_os.Kmalloc.History.{Call, allocs, frees, step, run, run-Apart}

abbrev three_free : Pmm
three_free = record {
  frame_bitmap = λ i. 0;
  free_stack = λ i. i * 4096;
  depth = 3;
  ref_counts = λ f. 0;
  total_frames = 3;
}

abbrev no_stats : Stats
no_stats = record {
  alloc_count = 2;
  free_count = 0;
  live_allocations = 1;
  bytes_used = 16;
  peak_bytes_used = 16;
  bytes_free = 0;
  largest_free_block = 0;
  failed_allocations = 0;
}

-- A free block of 104 bytes, a live one of 16, and the rest of the heap.
abbrev holed : Heap
holed = record {
  blocks =
      record { addr = 0x1000000; size = 104; is_free = true }
      ∷ record { addr = 0x1000080; size = 16; is_free = false }
      ∷ record { addr = 0x10000a8; size = 0xffff40; is_free = true }
      ∷ [];
  stats = no_stats;
}

holed-IsValid : IsValid holed
holed-IsValid = record {
  tiles = omega arith;
  coalesced = (refl, (refl, (refl, tt)));
  used = refl;
  count = refl;
}

abbrev history : List Call
history = allocs 100 ∷ allocs 16 ∷ frees 0x1000018 ∷ []

abbrev get_blocks : Option Heap → List Block
get_blocks none = []
get_blocks (some h) = h.blocks

-- Two allocations and the free of the first lead to the blocks of `holed`.
run-history : get_blocks (run (some (kmalloc_init three_free).1) history) ≡ holed.blocks
unfolding run step kmalloc_init kmalloc kfree align8 take_frames find_block merge mark_free
    merge_from
run-history = refl

kmalloc-Grown_example : Grown holed (kmalloc 200 holed).1 (align8 200) (kmalloc 200 holed).0
unfolding align8
kmalloc-Grown_example = kmalloc-Grown holed 200 holed-IsValid refl

kmalloc_fails_example :
    kmalloc 0x2000000 holed
    ≡ (0, record holed { stats = record no_stats { failed_allocations = 1 } })
unfolding align8
kmalloc_fails_example = kmalloc_fails holed 0x2000000 refl

kfree-Shrunk_example : (h : Heap) × (kfree 0x1000098 holed ≡ some h) × Shrunk holed h 0x1000098
kfree-Shrunk_example = kfree-Shrunk holed 0x1000098 holed-IsValid refl

kfree-kmalloc_example :
    (h : Heap) × (kfree (kmalloc 40 holed).0 (kmalloc 40 holed).1 ≡ some h)
    × (h.blocks ≡ holed.blocks)
    × (h.stats.bytes_used ≡ 16)
    × (h.stats.live_allocations ≡ 1)
unfolding align8
kfree-kmalloc_example = kfree-kmalloc holed 40 holed-IsValid refl

run-Apart_example : Apart 0x1000000 ((0x1000018, 104) ∷ []) 0x2000000
unfolding run step kmalloc_init kmalloc align8 take_frames
run-Apart_example =
    run-Apart three_free (allocs 100 ∷ []) (kmalloc 100 (kmalloc_init three_free).1).1 refl
