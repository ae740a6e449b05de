-- ===== src/Vmm/Spaces.antt =====
-- src/kernel/vmm.c: the clone and the destruction of an address space.
use zoho_os.Prelude.{ℕ, zero, suc, ◌+◌, ◌-◌, ◌/◌, ◌%◌, ◌^◌, bit_or, Bool, ◌==◌, if◌then◌else◌}
use zoho_os.Pmm.{pmm_free_frame, pmm_ref_inc}
use zoho_os.Vmm.{
  Vmm, is_present, is_huge, page_address, huge_address, write_entry, ensure_next_table,
  vmm_create_address_space,
}

-- `for (int i = first; ...; i++)` over `left` entries of a table.
unfoldable pub for_entries : ℕ → ℕ → (ℕ → Vmm → Vmm) → Vmm → Vmm
for_entries zero first body v = v
for_entries (suc left) first body v = for_entries left (first + 1) body (body first v)

abbrev is_writable : ℕ → Bool
is_writable flags = (flags / 2 % 2) == 1

-- `(flags & ~PAGE_WRITABLE) | PAGE_COW`, for flags that have PAGE_WRITABLE.
abbrev cow_flags : ℕ → ℕ
cow_flags flags = bit_or (flags - 2) 0x200

-- A page is shared: its entry loses the right to write in both tables, and it gets an owner more.
unfoldable pub share : (ℕ → ℕ) → ℕ → ℕ → ℕ → Vmm → Vmm
unfolding write_entry
share address src dst i v =
    let entry = v.tables src i in
    let phys = address entry in
    let flags = entry % 2 ^ 12 in
    let cow = bit_or (bit_or phys (cow_flags flags)) 1 in
    let v' =
      if is_writable flags
      then write_entry dst i cow (write_entry src i cow v)
      else write_entry dst i (bit_or (bit_or phys flags) 1) v in
    record v' { pmm = pmm_ref_inc v'.pmm phys }

clone_pt : ℕ → ℕ → ℕ → Vmm → Vmm
unfolding share
clone_pt src_pt dst_pt l v =
    if is_present (v.tables src_pt l) then share page_address src_pt dst_pt l v else v

clone_pd : ℕ → ℕ → ℕ → Vmm → Vmm
unfolding clone_pt for_entries share
clone_pd src_pd dst_pd k v =
    let (dst_pt, v') = ensure_next_table dst_pd k v in
    let src_pt = page_address (v.tables src_pd k) in
    if is_present (v.tables src_pd k)
    then (if is_huge (v.tables src_pd k)
        then share huge_address src_pd dst_pd k v
        else for_entries 512 0 (clone_pt src_pt dst_pt) v')
    else v

clone_pdpt : ℕ → ℕ → ℕ → Vmm → Vmm
unfolding clone_pd for_entries
clone_pdpt src_pdpt dst_pdpt j v =
    let (dst_pd, v') = ensure_next_table dst_pdpt j v in
    if is_present (v.tables src_pdpt j)
    then for_entries 512 0 (clone_pd (page_address (v.tables src_pdpt j)) dst_pd) v'
    else v

clone_pml4 : ℕ → ℕ → ℕ → Vmm → Vmm
unfolding clone_pdpt for_entries
clone_pml4 src_pml4 dst_pml4 i v =
    let (dst_pdpt, v') = ensure_next_table dst_pml4 i v in
    if is_present (v.tables src_pml4 i)
    then for_entries 512 0 (clone_pdpt (page_address (v.tables src_pml4 i)) dst_pdpt) v'
    else v

unfoldable pub vmm_clone_address_space : ℕ → Vmm → ℕ × Vmm
unfolding clone_pml4 for_entries
vmm_clone_address_space src_pml4 v =
    let (dst_pml4, v') = vmm_create_address_space v in
    (dst_pml4, for_entries 511 1 (clone_pml4 src_pml4 dst_pml4) v')

free_frame : ℕ → Vmm → Vmm
free_frame addr v = record v { pmm = pmm_free_frame v.pmm addr }

destroy_pt : ℕ → ℕ → Vmm → Vmm
unfolding free_frame
destroy_pt pt l v =
    if is_present (v.tables pt l) then free_frame (page_address (v.tables pt l)) v else v

-- An entry that is present names a table: `below` frees what that names, and then it is freed.
destroy_table : (ℕ → ℕ → Vmm → Vmm) → ℕ → ℕ → Vmm → Vmm
unfolding free_frame for_entries
destroy_table below table i v =
    let next = page_address (v.tables table i) in
    if is_present (v.tables table i) then free_frame next (for_entries 512 0 (below next) v) else v

unfoldable pub vmm_destroy_address_space : ℕ → Vmm → Vmm
unfolding destroy_pt destroy_table for_entries free_frame
vmm_destroy_address_space pml4 v =
    free_frame pml4
      (for_entries 511 1 (destroy_table (destroy_table (destroy_table destroy_pt)) pml4) v)
