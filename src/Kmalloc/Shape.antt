-- ===== src/Kmalloc/Shape.antt =====
-- src/kernel/kmalloc.c: what a well-formed heap is.
use zoho_os.Prelude.{
  ℕ, ◌+◌, ◌*◌, ◌%◌, ◌≤◌, ◌≡◌, Bool, false, ◌&&◌, List, [], ◌∷◌, ◌++◌, arith, if◌then◌else◌, length,
  Bool-cases, inl, inr,
}
use zoho_os.Kmalloc.{Block, Heap, heap_start, heap_size, header_size, payload}

-- The blocks lie one behind the other from `a` to `end`, and sizes are multiples of 8.
abbrev pub Tiles : ℕ → List Block → ℕ → Type 0
Tiles a [] end = a ≡ end
Tiles a (b ∷ rest) end = (b.addr ≡ a) × (b.size % 8 ≡ 0) × Tiles (a + header_size + b.size) rest end

-- No free block follows a free block; `before` is whether the block before the list is free.
abbrev pub Coalesced : Bool → List Block → Type 0
Coalesced before [] = Unit {0}
Coalesced before (b ∷ rest) = ((before && b.is_free) ≡ false) × Coalesced b.is_free rest

abbrev pub used_bytes : List Block → ℕ
used_bytes [] = 0
used_bytes (b ∷ rest) = (if b.is_free then 0 else b.size) + used_bytes rest

abbrev pub used_count : List Block → ℕ
used_count [] = 0
used_count (b ∷ rest) = (if b.is_free then 0 else 1) + used_count rest

abbrev pub unused_bytes : List Block → ℕ
unused_bytes [] = 0
unused_bytes (b ∷ rest) = (if b.is_free then b.size else 0) + unused_bytes rest

-- The allocations that are live: the pointer that the caller holds, and the bytes behind it.
abbrev pub live : List Block → List (ℕ × ℕ)
live [] = []
live (b ∷ rest) = if b.is_free then live rest else (payload b, b.size) ∷ live rest

-- The ranges lie apart, in order, between `a` and `end`, and each starts at a multiple of 8.
abbrev pub Apart : ℕ → List (ℕ × ℕ) → ℕ → Type 0
Apart a [] end = a ≤ end
Apart a ((ptr, size) ∷ rest) end = (a ≤ ptr) × (ptr % 8 ≡ 0) × Apart (ptr + size) rest end

pub record IsValid (h : Heap) : Type 0 where
  pub tiles : Tiles heap_start h.blocks (heap_start + heap_size)
  pub coalesced : Coalesced false h.blocks
  pub used : h.stats.bytes_used ≡ used_bytes h.blocks
  pub count : h.stats.live_allocations ≡ used_count h.blocks

-- Headers, live bytes and free bytes make up the whole range.
pub Tiles-total :
    (a end : ℕ) (bs : List Block)
    → Tiles a bs end
    → a + used_bytes bs + unused_bytes bs + header_size * length bs ≡ end
Tiles-total a end [] t = omega arith
Tiles-total a end (b ∷ rest) t = ground (arith, Tiles-total (a + header_size + b.size) end rest t.2)

pub used_count-le : (bs : List Block) → used_count bs ≤ length bs
used_count-le [] = omega arith
used_count-le (b ∷ rest) = ground (arith, used_count-le rest)

Apart-mono : (a c end : ℕ) (rs : List (ℕ × ℕ)) → a ≤ c → Apart c rs end → Apart a rs end
Apart-mono a c end [] h r = omega arith
Apart-mono a c end ((ptr, size) ∷ rest) h r = (omega arith, r.1, r.2)

-- In a tiled heap the live allocations are aligned and do not overlap.
pub live-Apart : (a end : ℕ) (bs : List Block) → a % 8 ≡ 0 → Tiles a bs end → Apart a (live bs) end
live-Apart a end [] e t = omega arith
live-Apart a end (b ∷ rest) e t =
    let tail : Apart (a + header_size + b.size) (live rest) end =
      live-Apart (a + header_size + b.size) end rest (omega arith) t.2 in
    ground (arith, tail, Apart-mono a (a + header_size + b.size) end (live rest) (omega arith) tail)

-- `after` is `before` with the allocation `r` put in somewhere.
abbrev pub Inserted : ℕ × ℕ → List (ℕ × ℕ) → List (ℕ × ℕ) → Type 0
Inserted r before after =
    (pre : List (ℕ × ℕ)) × (post : List (ℕ × ℕ)) × (before ≡ pre ++ post)
    × (after ≡ pre ++ r ∷ post)

pub Inserted-live :
    (b : Block) (bs cs : List Block) (r : ℕ × ℕ)
    → Inserted r (live bs) (live cs)
    → Inserted r (live (b ∷ bs)) (live (b ∷ cs))
Inserted-live b bs cs r (pre, post, p, q) = elim (Bool-cases b.is_free) [
  | inl free ↦ (pre, post, ground arith, ground arith)
  | inr used ↦ ((payload b, b.size) ∷ pre, post, ground arith, ground arith)
]
