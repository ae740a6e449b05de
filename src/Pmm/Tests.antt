-- ===== src/Pmm/Tests.antt =====
-- src/kernel/pmm.c: the theorems of the frame allocator at concrete states, and runs of its code.
use zoho_os.Prelude.{ℕ, suc, ◌^◌, ◌≡◌, refl, some, true, false, List, [], ◌∷◌, arith}
use zoho_os.Pmm.{
  Pmm, push, pmm_alloc_frame, pmm_free_frame, pmm_ref_inc, pmm_get_ref, pmm_get_free_count, Call,
  alloc_frame, free_frame, ref_inc, step, run,
}
use zoho_os.Pmm.Bitmap.{bitmap_set, bitmap_unset, bitmap_test, bitmap_test-bitmap_unset}
use zoho_os.Pmm.Invariant.{is_free, IsValid, IsAligned, run-IsValid}
use zoho_os.Pmm.Counts.{IsUsed, Allocated, alloc-Allocated, LastsFor, frees_owners}
use zoho_os.Pmm.Boot.{BootInfo, mmap, other_tag, pmm_init, all_ones}
use zoho_os.Pmm.Boot.Total.{all_ones_set, free_after_boot, BootFits, pmm_init_total}

-- Frame 5 is free, all others are in use.
abbrev one_free : Pmm
one_free = record {
  frame_bitmap = bitmap_unset all_ones 5;
  free_stack = λ i. 0x5000;
  depth = 1;
  ref_counts = λ f. 0;
  total_frames = 1;
}

one_free-IsValid : IsValid one_free
one_free-IsValid = record {
  distinct = (refl, tt);
  agree = λ f. ground (arith, bitmap_test-bitmap_unset all_ones 5 f, all_ones_set f);
}

-- Frame 9 is in use with three owners, and nothing is free.
abbrev shared : Pmm
shared = record {
  frame_bitmap = all_ones;
  free_stack = λ i. 0;
  depth = 0;
  ref_counts = λ f. 3;
  total_frames = 1;
}

-- The same with one owner.
abbrev owned : Pmm
owned = record shared { ref_counts = λ f. 1 }

owned-IsUsed : IsUsed owned 0x9000
owned-IsUsed = (omega arith, all_ones_set 9)

calls : List Call
calls = alloc_frame ∷ ref_inc 0x5000 ∷ free_frame 0x5000 ∷ free_frame 0x5000 ∷ []

alloc_then_empty :
    ((pmm_alloc_frame one_free).0 ≡ 0x5000) × ((pmm_alloc_frame (pmm_alloc_frame one_free).1).0 ≡ 0)
unfolding pmm_alloc_frame
alloc_then_empty = (refl, refl)

free_count_after_calls : pmm_get_free_count (run one_free calls) ≡ 1
unfolding run step calls pmm_alloc_frame pmm_free_frame pmm_ref_inc pmm_get_free_count bitmap_set
    bitmap_unset bitmap_test push
free_count_after_calls = refl

run-IsValid_example : IsValid (run one_free calls)
run-IsValid_example = run-IsValid one_free calls one_free-IsValid

alloc-Allocated_example :
    Allocated one_free (pmm_alloc_frame one_free).1 (pmm_alloc_frame one_free).0
unfolding pmm_get_free_count
alloc-Allocated_example = alloc-Allocated one_free one_free-IsValid (omega arith)

frees_owners_example : LastsFor 2 0x9000 [] shared
unfolding pmm_get_ref
frees_owners_example = frees_owners 2 shared 0x9000 (omega arith, all_ones_set 9) refl

-- 640 KiB of low memory and 7 MiB above the first; the kernel ends at 2 MiB, and the boot
-- information lies above it.
boot : BootInfo
boot = record {
  tags =
      other_tag
      ∷ mmap (
          record { addr = 0; len = 0xa0000; kind = 1 }
          ∷ record { addr = 0xf0000; len = 0x10000; kind = 2 }
          ∷ record { addr = 0x100000; len = 0x700000; kind = 1 }
          ∷ [])
      ∷ [];
  mb_info = 0x210000;
  total_size = 0x600;
  kernel_end = 0x200000;
}

boot-BootFits : BootFits boot
unfolding boot
boot-BootFits = omega arith

pmm_init_total_example :
    (p : Pmm) × (pmm_init (suc (2 ^ 52)) boot ≡ some p)
    × IsValid p
    × IsAligned p
    × ((f : ℕ) → is_free p f ≡ free_after_boot boot f)
pmm_init_total_example = pmm_init_total (2 ^ 52) boot (omega arith) boot-BootFits

-- The last kernel frame, the first free one, the frame of the boot information, and a reserved one.
free_frames :
    (free_after_boot boot 0x1ff ≡ false)
    × (free_after_boot boot 0x200 ≡ true)
    × (free_after_boot boot 0x210 ≡ false)
    × (free_after_boot boot 0x211 ≡ true)
    × (free_after_boot boot 0x800 ≡ false)
unfolding boot
free_frames = (refl, refl, refl, refl, refl)
