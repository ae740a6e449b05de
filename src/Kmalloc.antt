-- ===== src/Kmalloc.antt =====
-- src/kernel/kmalloc.c: the kernel heap, a list of blocks that tile 16 MiB from address 16 MiB.
-- A block header stands in memory before its bytes; the model keeps the headers in the order of
-- their `next` pointers, each with its address. Each function runs whole under `kmalloc_lock`.
pub mod Shape
pub mod Fit
pub mod Merge
pub mod Alloc
pub mod Free
pub mod Undo
pub mod History
mod Tests
use zoho_os.Prelude.{
  ℕ, zero, suc, ◌+◌, ◌-◌, ◌*◌, ◌/◌, ◌%◌, ◌^◌, ◌≡◌, Bool, true, false, not, ◌&&◌, Option, none, some,
  List, [], ◌∷◌, arith, ◌==◌, ltb, leb, if◌then◌else◌,
}
use zoho_os.Pmm.{Pmm, pmm_alloc_frame}

abbrev pub heap_start : ℕ
heap_start = 0x1000000

abbrev pub heap_size : ℕ
heap_size = 0x1000000

-- `sizeof(struct kmalloc_header)`: 8 for `size`, 4 for `is_free` and 4 of padding, 8 for `next`.
abbrev pub header_size : ℕ
header_size = 24

abbrev pub word64 : ℕ → ℕ
word64 n = n % 2 ^ 64

-- `struct kmalloc_header` at address `addr`.
pub record Block : Type 0 where
  pub addr : ℕ
  pub size : ℕ
  pub is_free : Bool

-- `kmalloc_stats_t`
pub record Stats : Type 0 where
  pub alloc_count : ℕ
  pub free_count : ℕ
  pub live_allocations : ℕ
  pub bytes_used : ℕ
  pub peak_bytes_used : ℕ
  pub bytes_free : ℕ
  pub largest_free_block : ℕ
  pub failed_allocations : ℕ

pub record Heap : Type 0 where
  pub blocks : List Block
  pub stats : Stats

-- The frames that `kmalloc_init` takes from the frame allocator, whichever they are.
unfoldable pub take_frames : ℕ → Pmm → Pmm
take_frames zero p = p
take_frames (suc n) p = take_frames n (pmm_alloc_frame p).1

unfoldable pub first_block : Block
first_block = record { addr = heap_start; size = heap_size - header_size; is_free = true }

unfoldable pub kmalloc_init : Pmm → Pmm × Heap
unfolding first_block
kmalloc_init p = (
  take_frames (heap_size / 4096) p,
  record {
    blocks = first_block ∷ [];
    stats = record {
      alloc_count = 0;
      free_count = 0;
      live_allocations = 0;
      bytes_used = 0;
      peak_bytes_used = 0;
      bytes_free = first_block.size;
      largest_free_block = first_block.size;
      failed_allocations = 0;
    };
  },
)

-- `(size + 7) & ~7` on 64-bit words.
unfoldable pub align8 : ℕ → ℕ
align8 size = let s = word64 (size + 7) in s - s % 8

-- The address of the bytes behind a header.
abbrev pub payload : Block → ℕ
payload b = b.addr + header_size

-- The list from a block that is taken: the block itself, and the rest of it if that is worth a
-- header of its own, before the blocks that follow.
unfoldable pub split : Block → ℕ → List Block → List Block
split b size rest =
    if leb (word64 (size + header_size + 8)) b.size
    then record { addr = b.addr; size = size; is_free = false }
      ∷ record {
        addr = b.addr + header_size + size;
        size = b.size - size - header_size;
        is_free = true;
      }
      ∷ rest
    else record b { is_free = false } ∷ rest

-- `curr->size` after the split.
unfoldable pub taken_size : Block → ℕ → ℕ
taken_size b size = if leb (word64 (size + header_size + 8)) b.size then size else b.size

-- What the walk finds: the block's address for the caller, its size, and the new list.
pub record Found : Type 0 where
  pub ptr : ℕ
  pub got : ℕ
  pub list : List Block

keep_before : Block → Option Found → Option Found
keep_before b none = none
keep_before b (some f) = some (record f { list = b ∷ f.list })

unfoldable pub first_fit : ℕ → List Block → Option Found
unfolding keep_before split taken_size
first_fit size [] = none
first_fit size (b ∷ rest) =
    if b.is_free && leb size b.size
    then some (record { ptr = payload b; got = taken_size b size; list = split b size rest })
    else keep_before b (first_fit size rest)

count_alloc : ℕ → Stats → Stats
count_alloc got s =
    let used = word64 (s.bytes_used + got) in
    record s {
      alloc_count = word64 (s.alloc_count + 1);
      live_allocations = word64 (s.live_allocations + 1);
      bytes_used = used;
      peak_bytes_used = if ltb s.peak_bytes_used used then used else s.peak_bytes_used;
    }

count_failure : Stats → Stats
count_failure s = record s { failed_allocations = word64 (s.failed_allocations + 1) }

finish_alloc : Heap → Option Found → ℕ × Heap
finish_alloc h none = (0, record h { stats = count_failure h.stats })
finish_alloc h (some f) = (f.ptr, record { blocks = f.list; stats = count_alloc f.got h.stats })

-- The pointer is 0 where C returns NULL.
unfoldable pub kmalloc : ℕ → Heap → ℕ × Heap
unfolding finish_alloc first_fit align8 count_alloc count_failure
kmalloc size h = finish_alloc h (first_fit (align8 size) h.blocks)

-- The block whose header stands at `addr`.
unfoldable pub find_block : ℕ → List Block → Option Block
find_block addr [] = none
find_block addr (b ∷ rest) = if b.addr == addr then some b else find_block addr rest

unfoldable pub mark_free : ℕ → List Block → List Block
mark_free addr [] = []
mark_free addr (b ∷ rest) =
    if b.addr == addr then record b { is_free = true } ∷ rest else b ∷ mark_free addr rest

-- The merging loop, from the block `curr` with the blocks after it.
unfoldable pub merge_from : Block → List Block → List Block
merge_from curr [] = curr ∷ []
merge_from curr (next ∷ rest) = elim (curr.is_free && next.is_free) [
  | true ↦ merge_from (record curr { size = word64 (curr.size + (next.size + header_size)) }) rest
  | false ↦ curr ∷ merge_from next rest
]

unfoldable pub merge : List Block → List Block
unfolding merge_from
merge [] = []
merge (b ∷ rest) = merge_from b rest

count_free : ℕ → Stats → Stats
count_free size s = record s {
  free_count = word64 (s.free_count + 1);
  live_allocations = if ltb 0 s.live_allocations then s.live_allocations - 1 else 0;
  bytes_used = if leb size s.bytes_used then s.bytes_used - size else 0;
}

-- `none`: there is no header before the pointer, so that C reads and writes other memory.
free_found : Heap → Option Block → Option Heap
unfolding merge mark_free count_free
free_found h none = none
free_found h (some b) =
    if b.is_free
    then some h
    else some
        (record { blocks = merge (mark_free b.addr h.blocks); stats = count_free b.size h.stats })

unfoldable pub kfree : ℕ → Heap → Option Heap
unfolding free_found find_block
kfree ptr h =
    if ptr == 0
    then some h
    else free_found h (find_block (word64 (ptr + 2 ^ 64 - header_size)) h.blocks)

-- The two sums of the walk; `acc` is what it has added up so far.
unfoldable pub free_bytes : List Block → ℕ → ℕ
free_bytes [] acc = acc
free_bytes (b ∷ rest) acc = free_bytes rest (if b.is_free then word64 (acc + b.size) else acc)

unfoldable pub largest_free : List Block → ℕ → ℕ
largest_free [] best = best
largest_free (b ∷ rest) best =
    largest_free rest (if b.is_free && ltb best b.size then b.size else best)

-- The new heap, since the call stores the summary, and the copy that the caller gets.
unfoldable pub kmalloc_get_stats : Heap → Stats × Heap
unfolding free_bytes largest_free
kmalloc_get_stats h =
    let s = record h.stats {
      bytes_free = free_bytes h.blocks 0;
      largest_free_block = largest_free h.blocks 0;
    } in
    (s, record h { stats = s })
