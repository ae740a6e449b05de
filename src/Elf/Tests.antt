-- ===== src/Elf/Tests.antt =====
-- src/kernel/elf.c: the theorem about the pages of a segment at a concrete file, and runs of the code.
use zoho_os.Prelude.{
  ◌+◌, ◌*◌, ◌-◌, ◌≡◌, refl, inl, none, arith, ◌==◌, ltb, leb, ◌&&◌, if◌then◌else◌,
}
use zoho_os.Pmm.{Pmm}
use zoho_os.Pmm.Boot.{all_ones}
use zoho_os.Bytes.{Memory, within}
use zoho_os.Elf.{Loader, fill_page, elf_load, phdr_offset, phdr_filesz}
use zoho_os.Elf.Page.{segment_byte, fill_page-segment_byte}

-- A file at 4096 whose program header, at 4160, says that 50 bytes from offset 120 on are a segment.
abbrev file : Memory
file a =
    if a == 4168 then 120 else if a == 4192 then 50 else if leb 4216 a && ltb a 4266 then 7 else 0

-- The segment begins at the fifth byte of its page; 8202 is the eleventh of the frame.
fill_page-segment_byte_example : fill_page 4096 4160 4100 8192 0 file 8202 ≡ (
    if within 8192 4096 8202
    then segment_byte
        (λ k. file (4096 + (phdr_offset file 4160 + k)))
        (phdr_filesz file 4160)
        4100
        (0 * 4096 + (8202 - 8192))
    else file 8202)
fill_page-segment_byte_example =
    fill_page-segment_byte 4096 4160 4100 8192 0 8202 file (inl (omega arith)) (inl (omega arith))
      (omega arith) (omega arith)

first_page :
    (fill_page 4096 4160 4100 8192 0 file 8195 ≡ 0)
    × (fill_page 4096 4160 4100 8192 0 file 8196 ≡ 7)
    × (fill_page 4096 4160 4100 8192 0 file 8245 ≡ 7)
    × (fill_page 4096 4160 4100 8192 0 file 8246 ≡ 0)
unfolding fill_page
first_page = (refl, refl, refl, refl)

-- Without the magic number nothing is loaded.
no_frames : Pmm
no_frames = record {
  frame_bitmap = all_ones;
  free_stack = λ i. 0;
  depth = 0;
  ref_counts = λ f. 0;
  total_frames = 0;
}

abbrev empty_loader : Loader
empty_loader = record {
  vmm = record { pmm = no_frames; tables = λ t i. 0; current_pml4 = 0x1000 };
  memory = file;
}

bad_magic : elf_load 4096 empty_loader ≡ (none, empty_loader)
unfolding elf_load
bad_magic = refl
