-- ===== src/Vmm/Tests.antt =====
-- src/kernel/vmm.c: the theorems of the page tables at a concrete memory, and runs of the code.
use zoho_os.Prelude.{
  ℕ, ◌+◌, ◌*◌, ◌≡◌, refl, true, [], none, some, arith, ◌==◌, if◌then◌else◌, bit_or, Bool-cases, inl,
  inr,
}
use zoho_os.Pmm.{Pmm, pmm_get_free_count, pmm_alloc_frame}
use zoho_os.Pmm.Bitmap.{bitmap_set, bitmap_unset, bitmap_test-bitmap_unset}
use zoho_os.Pmm.Invariant.{IsValid, is_free}
use zoho_os.Pmm.Boot.{all_ones}
use zoho_os.Pmm.Boot.Total.{all_ones_set}
use zoho_os.Vmm.{
  Vmm, page_address, vmm_map, vmm_unmap, vmm_get_phys, vmm_get_flags, vmm_create_address_space,
}
use zoho_os.Vmm.Create.{Created, vmm_create_address_space-Created}
use zoho_os.Vmm.Lookup.{translate, lookup}
use zoho_os.Vmm.Tree.{Place, IsTree, IsBacked, links_absent}
use zoho_os.Vmm.Map.{Mapped, vmm_map-Mapped}
use zoho_os.Vmm.Huge.{MappedHuge, vmm_map-MappedHuge}
use zoho_os.Vmm.Unmap.{Unmapped, vmm_unmap-Unmapped}
use zoho_os.Vmm.Translate.{Answers, vmm_get-Answers}

-- Frames 2, 3 and 4 are free.
abbrev three_free : Pmm
three_free = record {
  frame_bitmap = bitmap_unset (bitmap_unset (bitmap_unset all_ones 2) 3) 4;
  free_stack = λ i. (i + 2) * 4096;
  depth = 3;
  ref_counts = λ f. 0;
  total_frames = 3;
}

three_free_is_free :
    (f : ℕ) → is_free three_free f ≡ (if f == 2 then true else if f == 3 then true else f == 4)
three_free_is_free f = ground (
  arith,
  bitmap_test-bitmap_unset (bitmap_unset (bitmap_unset all_ones 2) 3) 4 f,
  bitmap_test-bitmap_unset (bitmap_unset all_ones 2) 3 f,
  bitmap_test-bitmap_unset all_ones 2 f,
  all_ones_set f,
)

three_free-IsValid : IsValid three_free
three_free-IsValid = record {
  distinct = (refl, (refl, (refl, tt)));
  agree = λ f. ground (arith, three_free_is_free f);
}

-- Frame 1 is the only table, and empty.
abbrev start : Vmm
start = record { pmm = three_free; tables = λ t i. 0; current_pml4 = 0x1000 }

abbrev only_root : Place
only_root t = if t == 0x1000 then some (3, []) else none

start-IsTree : IsTree 0x1000 only_root (start.tables)
start-IsTree = record {
  top = refl;
  null = refl;
  linked = λ t i k p at' l. absurd (ground (arith, l, links_absent k 0 refl));
}

start-IsBacked : IsBacked only_root three_free
start-IsBacked = record {
  valid = three_free-IsValid;
  aligned = (refl, (refl, (refl, tt)));
  no_zero = three_free_is_free 0;
  in_use = λ t x at'. elim (Bool-cases (t == 0x1000)) [
    | inl e ↦ let et : t ≡ 0x1000 = ground (arith, e) in rw et (three_free_is_free 1)
    | inr e ↦ absurd (ground (arith, e, at'))
  ];
}

-- A page that is mapped is found, and gone when it is unmapped.
abbrev mapped : Vmm
mapped = vmm_map 0x1000 0x40201000 0x9123 3 start

mapped_phys : vmm_get_phys mapped.tables 0x1000 0x40201abc ≡ 0x9abc
unfolding vmm_map vmm_get_phys pmm_alloc_frame bitmap_set bitmap_unset
mapped_phys = refl

unmapped_flags : vmm_get_flags (vmm_unmap 0x1000 0x40201000 mapped).tables 0x1000 0x40201abc ≡ 0
unfolding vmm_map vmm_unmap vmm_get_flags pmm_alloc_frame bitmap_set bitmap_unset
unmapped_flags = refl

vmm_map-Mapped_example :
    (place' : Place) × Mapped 0x1000 place' start mapped 0x40201000
      (some (page_address 0x9123, bit_or 3 1))
unfolding pmm_get_free_count translate lookup
vmm_map-Mapped_example =
    vmm_map-Mapped 0x1000 only_root start 0x40201000 0x9123 3 start-IsTree start-IsBacked
      (omega arith) (λ f fl e. absurd (ground (arith, e))) (omega arith) refl

vmm_map-MappedHuge_example :
    (place' : Place) × MappedHuge 0x1000 place' start
      (vmm_map 0x1000 0x40201000 0x600123 0x83 start)
      0x40201000
      0x600123
      0x83
unfolding pmm_get_free_count
vmm_map-MappedHuge_example =
    vmm_map-MappedHuge 0x1000 only_root start 0x40201000 0x600123 0x83 start-IsTree start-IsBacked
      (omega arith) (omega arith) refl

mapped_tree : (place' : Place) × IsTree 0x1000 place' mapped.tables
unfolding pmm_get_free_count translate lookup
mapped_tree =
    let (place', m) =
      vmm_map-Mapped 0x1000 only_root start 0x40201000 0x9123 3 start-IsTree start-IsBacked
        (omega arith) (λ f fl e. absurd (ground (arith, e))) (omega arith) refl in
    (place', m.tree)

vmm_unmap-Unmapped_example :
    Unmapped 0x1000 mapped_tree.0 mapped.tables
      (vmm_unmap 0x1000 0x40201000 mapped).tables
      0x40201000
vmm_unmap-Unmapped_example = vmm_unmap-Unmapped 0x1000 mapped_tree.0 mapped 0x40201000 mapped_tree.1

vmm_get-Answers_example :
    Answers
      (translate mapped.tables 0x1000 0x40201abc)
      0x40201abc
      (vmm_get_phys mapped.tables 0x1000 0x40201abc)
      (vmm_get_flags mapped.tables 0x1000 0x40201abc)
vmm_get-Answers_example =
    vmm_get-Answers 0x1000 mapped_tree.0 mapped.tables 0x40201abc mapped_tree.1

vmm_create_address_space-Created_example :
    Created only_root start (vmm_create_address_space start).1 (vmm_create_address_space start).0
unfolding pmm_get_free_count
vmm_create_address_space-Created_example =
    vmm_create_address_space-Created only_root start start-IsTree start-IsBacked (omega arith)
