-- ===== src/Vmm.antt =====
-- src/kernel/vmm.c: page tables of four levels, in frames of the allocator of src/kernel/pmm.c.
-- A table is known by its address, a multiple of 4096, and memory gives the 512 entries of each. A
-- mask that keeps low bits is `%`, one that clears them subtracts them. Where the code takes
-- `vmm_lock` for a part of a function, no other CPU changes the tables in between.
pub mod Lookup
pub mod Create
pub mod Spaces
pub mod Tree
pub mod Ensure
pub mod Descend
pub mod Entries
pub mod Map
pub mod Huge
pub mod Walk
pub mod Unmap
pub mod Translate
mod Tests
use zoho_os.Prelude.{
  ℕ, zero, suc, ◌+◌, ◌-◌, ◌*◌, ◌/◌, ◌%◌, ◌^◌, bit_or, Bool, true, false, not, ◌&&◌, ◌||◌, Option,
  none, some, arith, ◌==◌, ltb, leb, if◌then◌else◌, update,
}
use zoho_os.Pmm.{Pmm, pmm_alloc_frame, pmm_free_frame}

abbrev pub Tables : Type 0
Tables = ℕ → ℕ → ℕ

-- The frames, the tables, and `current_pml4`.
pub record Vmm : Type 0 where
  pub pmm : Pmm
  pub tables : Tables
  pub current_pml4 : ℕ

abbrev pub word64 : ℕ → ℕ
word64 n = n % 2 ^ 64

abbrev pub pml4_index : ℕ → ℕ
pml4_index addr = addr / 2 ^ 39 % 512

abbrev pub pdpt_index : ℕ → ℕ
pdpt_index addr = addr / 2 ^ 30 % 512

abbrev pub pd_index : ℕ → ℕ
pd_index addr = addr / 2 ^ 21 % 512

abbrev pub pt_index : ℕ → ℕ
pt_index addr = addr / 2 ^ 12 % 512

-- `entry & PAGE_PRESENT` and `entry & PAGE_HUGE`
abbrev pub is_present : ℕ → Bool
is_present entry = (entry % 2) == 1

abbrev pub is_huge : ℕ → Bool
is_huge entry = (entry / 2 ^ 7 % 2) == 1

-- `entry & ~0xFFFULL` and `entry & ~0x1FFFFFULL`
abbrev pub page_address : ℕ → ℕ
page_address entry = entry - entry % 2 ^ 12

abbrev pub huge_address : ℕ → ℕ
huge_address entry = entry - entry % 2 ^ 21

pub write_entry : ℕ → ℕ → ℕ → Vmm → Vmm
write_entry table index entry v = record v {
  tables = update v.tables table (update (v.tables table) index entry);
}

-- The table's address is 0 where C returns NULL, here and below.
unfoldable pub vmm_create_address_space : Vmm → ℕ × Vmm
unfolding write_entry
vmm_create_address_space v =
    let (new_pml4, p) = pmm_alloc_frame v.pmm in
    let cleared = record v { pmm = p; tables = update v.tables new_pml4 (λ i. 0) } in
    if new_pml4 == 0
    then (0, record v { pmm = p })
    else (new_pml4, write_entry new_pml4 0 (cleared.tables v.current_pml4 0) cleared)

unfoldable pub alloc_zeroed_table : Vmm → ℕ × Vmm
alloc_zeroed_table v =
    let (next_table, p) = pmm_alloc_frame v.pmm in
    if next_table == 0
    then (0, record v { pmm = p })
    else (next_table, record v { pmm = p; tables = update v.tables next_table (λ i. 0) })

unfoldable pub get_existing_table : Tables → ℕ → ℕ → ℕ
get_existing_table tables table index =
    let entry = tables table index in if is_present entry then page_address entry else 0

-- `(uint64_t)new_table | PAGE_PRESENT | PAGE_WRITABLE | PAGE_USER`
abbrev pub table_entry : ℕ → ℕ
table_entry new_table = bit_or (bit_or (bit_or new_table 1) 2) 4

unfoldable pub ensure_next_table : ℕ → ℕ → Vmm → ℕ × Vmm
unfolding alloc_zeroed_table get_existing_table write_entry
ensure_next_table table index v =
    let next = get_existing_table v.tables table index in
    let (new_table, v₁) = alloc_zeroed_table v in
    let again = get_existing_table v₁.tables table index in
    if not (next == 0)
    then (next, v)
    else if new_table == 0
    then (0, v₁)
    else if again == 0
    then (new_table, write_entry table index (table_entry new_table) v₁)
    else (again, record v₁ { pmm = pmm_free_frame v₁.pmm new_table })

-- `(phys & ~0xFFFULL) | flags | PAGE_PRESENT`, and the same for a huge page.
abbrev pub page_entry : ℕ → ℕ → ℕ
page_entry phys flags = bit_or (bit_or (page_address phys) flags) 1

abbrev pub huge_entry : ℕ → ℕ → ℕ
huge_entry phys flags = bit_or (bit_or (huge_address phys) flags) 1

-- The last part of `vmm_map`, from the page directory on.
pub map_in : ℕ → ℕ → ℕ → ℕ → Vmm → Vmm
unfolding ensure_next_table write_entry
map_in pd virt phys flags v =
    let (pt, v') = ensure_next_table pd (pd_index virt) v in
    if is_huge flags
    then write_entry pd (pd_index virt) (huge_entry phys flags) v
    else if pt == 0
    then v'
    else write_entry pt (pt_index virt) (page_entry phys flags) v'

unfoldable pub vmm_map : ℕ → ℕ → ℕ → ℕ → Vmm → Vmm
unfolding ensure_next_table map_in
vmm_map pml4 virt phys flags v =
    let (pdpt, v₁) = ensure_next_table pml4 (pml4_index virt) v in
    let (pd, v₂) = ensure_next_table pdpt (pdpt_index virt) v₁ in
    if pdpt == 0 then v₁ else if pd == 0 then v₂ else map_in pd virt phys flags v₂

-- The loop of `vmm_map_range`; `none` says that the fuel ran out.
unfoldable pub map_range_from : ℕ → ℕ → ℕ → ℕ → ℕ → ℕ → ℕ → Vmm → Option Vmm
map_range_from zero i pml4 virt phys size flags v = none
map_range_from (suc fuel) i pml4 virt phys size flags v =
    let huge =
      (word64 (virt + i) % 0x200000) == 0
      && (word64 (phys + i) % 0x200000) == 0
      && leb 0x200000 (size - i) in
    let rest_huge =
      map_range_from fuel (word64 (i + 0x200000)) pml4 virt phys size flags
        (vmm_map pml4 (word64 (virt + i)) (word64 (phys + i)) (bit_or flags 0x80) v) in
    let rest =
      map_range_from fuel (word64 (i + 0x1000)) pml4 virt phys size flags
        (vmm_map pml4 (word64 (virt + i)) (word64 (phys + i)) flags v) in
    if leb size i then some v else if huge then rest_huge else rest

unfoldable pub vmm_map_range : ℕ → ℕ → ℕ → ℕ → ℕ → ℕ → Vmm → Option Vmm
unfolding map_range_from
vmm_map_range fuel pml4 virt phys size flags v = map_range_from fuel 0 pml4 virt phys size flags v

-- The page directory for an address, 0 if there is none.
unfoldable pub find_pd : Tables → ℕ → ℕ → ℕ
unfolding get_existing_table
find_pd tables pml4 virt =
    let pdpt = get_existing_table tables pml4 (pml4_index virt) in
    if pdpt == 0 then 0 else get_existing_table tables pdpt (pdpt_index virt)

unfoldable pub vmm_unmap : ℕ → ℕ → Vmm → Vmm
unfolding find_pd get_existing_table write_entry
vmm_unmap pml4 virt v =
    let pd = find_pd v.tables pml4 virt in
    let pt = get_existing_table v.tables pd (pd_index virt) in
    if pd == 0
    then v
    else if is_huge (v.tables pd (pd_index virt))
    then write_entry pd (pd_index virt) 0 v
    else if pt == 0
    then v
    else write_entry pt (pt_index virt) 0 v

-- The loop of `vmm_unmap_range`: the size of a page is looked up in `current_pml4`.
unfoldable pub unmap_range_from : ℕ → ℕ → ℕ → ℕ → ℕ → Vmm → Option Vmm
unmap_range_from zero i pml4 virt size v = none
unmap_range_from (suc fuel) i pml4 virt size v =
    let addr = word64 (virt + i) in
    let pd = find_pd v.tables v.current_pml4 addr in
    let step =
      if not (pd == 0) && is_huge (v.tables pd (pd_index addr)) then 0x200000 else 0x1000 in
    let rest = unmap_range_from fuel (word64 (i + step)) pml4 virt size (vmm_unmap pml4 addr v) in
    if leb size i then some v else rest

unfoldable pub vmm_unmap_range : ℕ → ℕ → ℕ → ℕ → Vmm → Option Vmm
unfolding unmap_range_from
vmm_unmap_range fuel pml4 virt size v = unmap_range_from fuel 0 pml4 virt size v

unfoldable pub vmm_get_phys : Tables → ℕ → ℕ → ℕ
unfolding find_pd get_existing_table
vmm_get_phys tables pml4 virt =
    let pd = find_pd tables pml4 virt in
    let entry = tables pd (pd_index virt) in
    let pt = get_existing_table tables pd (pd_index virt) in
    if pd == 0
    then 0
    else if is_huge entry
    then bit_or (huge_address entry) (virt % 2 ^ 21)
    else if pt == 0
    then 0
    else bit_or (page_address (tables pt (pt_index virt))) (virt % 2 ^ 12)

unfoldable pub vmm_get_flags : Tables → ℕ → ℕ → ℕ
unfolding find_pd get_existing_table
vmm_get_flags tables pml4 virt =
    let pd = find_pd tables pml4 virt in
    let entry = tables pd (pd_index virt) in
    let pt = get_existing_table tables pd (pd_index virt) in
    if pd == 0
    then 0
    else if is_huge entry
    then entry % 2 ^ 12
    else if pt == 0
    then 0
    else tables pt (pt_index virt) % 2 ^ 12
