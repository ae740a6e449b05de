-- ===== src/Elf.antt =====
-- src/kernel/elf.c: the loader of programs, over the page tables of src/kernel/vmm.c.
-- Bytes of memory and page tables are two stores: no frame is both at once. A pointer is an address.
pub mod Page
mod Tests
use zoho_os.Prelude.{
  ℕ, zero, suc, ◌+◌, ◌-◌, ◌*◌, ◌/◌, ◌%◌, ◌^◌, bit_or, Bool, not, Option, none, some, arith, ◌==◌,
  ltb, if◌then◌else◌,
}
use zoho_os.Pmm.{pmm_alloc_frame}
use zoho_os.Vmm.{Vmm, word64, page_address, vmm_create_address_space, vmm_map}
use zoho_os.Bytes.{Memory, memset, memcpy}
use zoho_os.Net.Packet.{load16, load32}

pub record Loader : Type 0 where
  pub vmm : Vmm
  pub memory : Memory

abbrev pub load64 : Memory → ℕ → ℕ
load64 m a = load32 m a + load32 m (a + 4) * 2 ^ 32

-- `elf_header_t` at a pointer
abbrev pub header_magic : Memory → ℕ → ℕ
header_magic m p = load32 m p

abbrev pub header_entry : Memory → ℕ → ℕ
header_entry m p = load64 m (p + 24)

abbrev pub header_phoff : Memory → ℕ → ℕ
header_phoff m p = load64 m (p + 32)

abbrev pub header_phentsize : Memory → ℕ → ℕ
header_phentsize m p = load16 m (p + 54)

abbrev pub header_phnum : Memory → ℕ → ℕ
header_phnum m p = load16 m (p + 56)

-- `elf_phdr_t` at a pointer
abbrev pub phdr_type : Memory → ℕ → ℕ
phdr_type m p = load32 m p

abbrev pub phdr_flags : Memory → ℕ → ℕ
phdr_flags m p = load32 m (p + 4)

abbrev pub phdr_offset : Memory → ℕ → ℕ
phdr_offset m p = load64 m (p + 8)

abbrev pub phdr_vaddr : Memory → ℕ → ℕ
phdr_vaddr m p = load64 m (p + 16)

abbrev pub phdr_filesz : Memory → ℕ → ℕ
phdr_filesz m p = load64 m (p + 32)

abbrev pub phdr_memsz : Memory → ℕ → ℕ
phdr_memsz m p = load64 m (p + 40)

abbrev pub elf_magic : ℕ
elf_magic = 0x464C457F

-- The bytes of page `p` of a segment go to its frame: the file from `offset` to `end`.
unfoldable pub copy_bytes : ℕ → ℕ → ℕ → ℕ → ℕ → ℕ → Memory → Memory
unfolding memcpy
copy_bytes elf_data offset end vaddr_start frame p m =
    let copy_offset_in_page = if p == 0 then vaddr_start % 4096 else 0 in
    let copy_src_offset =
      if p == 0 then offset else word64 (offset + p * 4096 + 2 ^ 64 - vaddr_start % 4096) in
    let copy_size = if p == 0 then 4096 - vaddr_start % 4096 else 4096 in
    let left = end - copy_src_offset in
    let bytes_from_file = if ltb copy_size left then copy_size else left in
    if ltb copy_src_offset end
    then memcpy (frame + copy_offset_in_page) (elf_data + copy_src_offset) bytes_from_file m
    else m

-- A frame is cleared, and gets the bytes of its page.
unfoldable pub fill_page : ℕ → ℕ → ℕ → ℕ → ℕ → Memory → Memory
unfolding memset copy_bytes
fill_page elf_data phdr vaddr_start frame p m =
    let cleared = memset frame 0 4096 m in
    copy_bytes elf_data (phdr_offset cleared phdr)
      (word64 (phdr_offset cleared phdr + phdr_filesz cleared phdr)) vaddr_start frame p cleared

unfoldable pub load_page : ℕ → ℕ → ℕ → ℕ → ℕ → ℕ → ℕ → Loader → Loader
unfolding fill_page
load_page elf_data phdr pml4 flags vaddr_start page_start p this =
    let (frame, pmm) = pmm_alloc_frame this.vmm.pmm in
    record this {
      vmm =
          vmm_map pml4 (word64 (page_start + p * 4096)) frame flags (record this.vmm { pmm = pmm });
      memory = fill_page elf_data phdr vaddr_start frame p this.memory;
    }

-- `count` pages, from page `p` on
unfoldable pub load_pages : ℕ → ℕ → ℕ → ℕ → ℕ → ℕ → ℕ → ℕ → Loader → Loader
unfolding load_page
load_pages zero elf_data phdr pml4 flags vaddr_start page_start p this = this
load_pages (suc count) elf_data phdr pml4 flags vaddr_start page_start p this =
    load_pages count elf_data phdr pml4 flags vaddr_start page_start (p + 1)
      (load_page elf_data phdr pml4 flags vaddr_start page_start p this)

unfoldable pub load_segment : ℕ → ℕ → ℕ → Loader → Loader
unfolding load_pages
load_segment elf_data phdr pml4 this =
    let m = this.memory in
    let flags = if (phdr_flags m phdr / 2 % 2) == 1 then bit_or 4 2 else 4 in
    let vaddr_start = phdr_vaddr m phdr in
    let vaddr_end = word64 (phdr_vaddr m phdr + phdr_memsz m phdr) in
    let page_start = page_address vaddr_start in
    let page_end = page_address (word64 (vaddr_end + 4095)) in
    let num_pages = word64 (page_end + 2 ^ 64 - page_start) / 4096 in
    if phdr_type m phdr == 1
    then load_pages num_pages elf_data phdr pml4 flags vaddr_start page_start 0 this
    else this

-- The loop over the program headers: `phnum` has 16 bits.
unfoldable pub load_segments : ℕ → ℕ → ℕ → ℕ → Loader → Loader
unfolding load_segment
load_segments zero elf_data pml4 i this = this
load_segments (suc fuel) elf_data pml4 i this =
    let m = this.memory in
    let phdr = elf_data + header_phoff m elf_data + i * header_phentsize m elf_data in
    let rest = load_segments fuel elf_data pml4 (i + 1) (load_segment elf_data phdr pml4 this) in
    if ltb i (header_phnum m elf_data) then rest else this

-- The entry point and the root of the address space, or none for `false`.
unfoldable pub elf_load : ℕ → Loader → Option (ℕ × ℕ) × Loader
unfolding load_segments
elf_load elf_data this =
    let (pml4, vmm) = vmm_create_address_space this.vmm in
    if not (header_magic this.memory elf_data == elf_magic) then (none, this) else (
      some (header_entry this.memory elf_data, pml4),
      load_segments (2 ^ 16) elf_data pml4 0 (record this { vmm = vmm }),
    )
