-- ===== src/Pmm/Boot.antt =====
-- src/kernel/pmm.c: `pmm_init`. The Multiboot2 tags are a list in memory order without the end
-- tag; a memory-map tag is the list of its entries. Addresses are 64-bit words that wrap. The
-- address loops take fuel, and `none` is a loop that did not end: Boot/Total.antt shows that fuel
-- for 2 ^ 64 bytes of pages is enough unless an end lies in the last page of the address space.
pub mod Loops
pub mod Valid
pub mod Total
use zoho_os.Prelude.{
  ℕ, zero, suc, ◌+◌, ◌-◌, ◌*◌, ◌/◌, ◌%◌, ◌^◌, min, Option, none, some, List, [], ◌∷◌, arith, ◌==◌,
  ltb, if◌then◌else◌, not,
}
use zoho_os.Pmm.{page_size, max_frames, Pmm, push}
use zoho_os.Pmm.Bitmap.{BitWords, bitmap_set, bitmap_unset, bitmap_test}

-- `struct multiboot_mmap_entry`; `kind` is its field `type`.
pub record MmapEntry : Type 0 where
  pub addr : ℕ
  pub len : ℕ
  pub kind : ℕ

pub data Tag : Type 0 where
  mmap : List MmapEntry → Tag
  other_tag : Tag

-- What GRUB and the linker hand over: where the info block lies, and where the kernel ends.
pub record BootInfo : Type 0 where
  pub tags : List Tag
  pub mb_info : ℕ
  pub total_size : ℕ
  pub kernel_end : ℕ

abbrev pub word64 : ℕ → ℕ
word64 n = n % 2 ^ 64

module _ {S : Type 0} (body : ℕ → S → S) where
  -- `for (addr = ...; addr < end; addr += PAGE_SIZE) body`
  pub for_pages : ℕ → ℕ → ℕ → S → Option S
  for_pages zero addr end s = none
  for_pages (suc n) addr end s =
      let rest = for_pages n (word64 (addr + page_size)) end (body addr s) in
      if ltb addr end then rest else some s

-- The bitmap and `max_addr`, the variables of the scan of the memory map.
pub record Scan : Type 0 where
  pub words : BitWords
  pub max_addr : ℕ

pub mark_available : ℕ → Scan → Scan
mark_available addr s =
    if ltb (addr / page_size) max_frames
    then record {
      words = bitmap_unset s.words (addr / page_size);
      max_addr = if ltb s.max_addr (addr + page_size) then addr + page_size else s.max_addr;
    }
    else s

pub reserve : ℕ → BitWords → BitWords
reserve addr w = bitmap_set w (addr / page_size)

infixl 5 ◌>>=◌
abbrev pub ◌>>=◌ : {A B : Type 0} → Option A → (A → Option B) → Option B
none >>= f = none
some a >>= f = f a

pub mark_entry : ℕ → MmapEntry → Scan → Option Scan
mark_entry fuel e s =
    if e.kind == 1 then for_pages mark_available fuel e.addr (word64 (e.addr + e.len)) s else some s

pub mark_entries : ℕ → List MmapEntry → Scan → Option Scan
mark_entries fuel [] s = some s
mark_entries fuel (e ∷ es) s = mark_entry fuel e s >>= mark_entries fuel es

pub mark_tags : ℕ → List Tag → Scan → Option Scan
mark_tags fuel [] s = some s
mark_tags fuel (mmap es ∷ ts) s = mark_entries fuel es s >>= mark_tags fuel ts
mark_tags fuel (other_tag ∷ ts) s = mark_tags fuel ts s

pub collect_one : ℕ → Pmm → Pmm
collect_one f p =
    if bitmap_test p.frame_bitmap f
    then p
    else record (push p (f * page_size)) { total_frames = p.total_frames + 1 }

-- `for (f = from; f < max_frame; f++)`, by the rounds that are left.
pub collect : ℕ → ℕ → Pmm → Pmm
collect zero f p = p
collect (suc left) f p = collect left (suc f) (collect_one f p)

-- The static variables before `pmm_init`, after its first two loops: every bit set, no count.
abbrev pub all_ones : BitWords
all_ones i = 2 ^ 32 - 1

pub empty_pmm : BitWords → Pmm
empty_pmm w = record {
  frame_bitmap = w;
  free_stack = λ i. 0;
  depth = 0;
  ref_counts = λ f. 0;
  total_frames = 0;
}

pub max_frame : Scan → ℕ
max_frame s = min (s.max_addr / page_size) max_frames

pub pmm_init : ℕ → BootInfo → Option Pmm
pmm_init fuel b = do
  s ← mark_tags fuel b.tags (record { words = all_ones; max_addr = 0 })
  w ← for_pages reserve fuel 0 b.kernel_end s.words
  w' ← for_pages reserve fuel b.mb_info (word64 (b.mb_info + b.total_size)) w
  some (collect (max_frame s) 0 (empty_pmm w'))
