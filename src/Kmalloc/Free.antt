-- ===== src/Kmalloc/Free.antt =====
-- src/kernel/kmalloc.c: what `kfree` does on a well-formed heap.
use zoho_os.Prelude.{
  ℕ, ◌+◌, ◌-◌, ◌^◌, ◌≤◌, ◌≡◌, refl, ap, subst, sym, ◌∙◌, Bool, true, false, ◌||◌, Option, none,
  some, List, [], ◌∷◌, ◌++◌, arith, ◌==◌, Bool-cases, Option-cases, inl, inr,
}
use zoho_os.Kmalloc.{
  Block, Heap, header_size, heap_start, heap_size, payload, word64, find_block, mark_free, merge,
  free_found, count_free, kfree,
}
use zoho_os.Kmalloc.Shape.{Tiles, live, Inserted, IsValid}
use zoho_os.Kmalloc.Merge.{
  merge-Merged, mark_free-Tiles, mark_free-Marked, find_block-addr, Tiles-le,
}

abbrev heap_end : ℕ
heap_end = heap_start + heap_size

abbrev pub has_ptr : ℕ → List (ℕ × ℕ) → Bool
has_ptr ptr [] = false
has_ptr ptr ((p, size) ∷ rest) = ptr == p || has_ptr ptr rest

-- Is `ptr` the pointer of a live allocation?
abbrev pub is_live : ℕ → List Block → Bool
is_live ptr bs = has_ptr ptr (live bs)

pub Inserted-is_live :
    (ptr size : ℕ) (before after : List (ℕ × ℕ))
    → Inserted (ptr, size) before after
    → has_ptr ptr after ≡ true
Inserted-is_live ptr size before after (pre, post, p, q) = rw q (there pre)
  where
    there : (pre : List (ℕ × ℕ)) → has_ptr ptr (pre ++ (ptr, size) ∷ post) ≡ true
    there [] = ground arith
    there (r ∷ pre) = ground (arith, there pre)

-- `h'` is `h` without the allocation at `ptr`.
pub record Shrunk (h h' : Heap) (ptr : ℕ) : Type 0 where
  pub valid : IsValid h'
  pub size : ℕ
  pub one_fewer : Inserted (ptr, size) (live h'.blocks) (live h.blocks)

is_live-bounds :
    (ptr a end : ℕ) (bs : List Block)
    → Tiles a bs end
    → is_live ptr bs ≡ true
    → (a + header_size ≤ ptr) × (ptr ≤ end)
is_live-bounds ptr a end [] t l = cc
is_live-bounds ptr a end (b ∷ rest) t l = ground (
  arith,
  is_live-bounds ptr (a + header_size + b.size) end rest t.2,
  Tiles-le (a + header_size + b.size) end rest t.2,
)

find_live :
    (addr a end : ℕ) (bs : List Block)
    → Tiles a bs end
    → is_live (addr + header_size) bs ≡ true
    → (b : Block) × (find_block addr bs ≡ some b) × (b.is_free ≡ false)
unfolding find_block
find_live addr a end [] t l = cc
find_live addr a end (b ∷ rest) t l = elim (Bool-cases (b.addr == addr)) [
  | inl hit ↦ (
    b,
    ground arith,
    ground (arith, is_live-bounds (addr + header_size) (a + header_size + b.size) end rest t.2),
  )
  | inr miss ↦
      let (c, e, u) = find_live addr (a + header_size + b.size) end rest t.2 (ground arith) in
      (c, rw (miss, find_block) e, u)
]

freed :
    (h : Heap) (b : Block)
    → IsValid h
    → find_block b.addr h.blocks ≡ some b
    → b.is_free ≡ false
    → (h' : Heap) × (free_found h (some b) ≡ some h')
      × Shrunk h h' (payload b)
      × (h'.blocks ≡ merge (mark_free b.addr h.blocks))
unfolding free_found
freed h b v e u =
    let m = mark_free-Marked b.addr h.blocks b e u in
    let x =
      merge-Merged heap_start heap_end (mark_free b.addr h.blocks) (omega arith)
        (mark_free-Tiles b.addr heap_start heap_end h.blocks v.tiles) in
    (
      record { blocks = merge (mark_free b.addr h.blocks); stats = count_free b.size h.stats },
      rw (u, free_found),
      record {
        valid = record {
          tiles = x.tiles;
          coalesced = x.coalesced;
          used = ground (arith, v.used, x.bytes, m.bytes);
          count = ground (arith, v.count, x.count, m.count);
        };
        size = b.size;
        one_fewer = rw x.lives m.one_fewer;
      },
      refl,
    )

-- The header of a live pointer is found, and what becomes of the heap.
pub kfree_live :
    (h : Heap) (ptr : ℕ)
    → IsValid h
    → is_live ptr h.blocks ≡ true
    → (h' : Heap) × (kfree ptr h ≡ some h')
      × Shrunk h h' ptr
      × (h'.blocks ≡ merge (mark_free (ptr - header_size) h.blocks))
unfolding kfree
kfree_live h ptr v l =
    let (low, high) = is_live-bounds ptr heap_start heap_end h.blocks v.tiles l in
    let back : ptr ≡ ptr - header_size + header_size = omega (arith, low) in
    let (b, e, u) =
      find_live (ptr - header_size) heap_start heap_end h.blocks v.tiles
        (subst (λ p. is_live p h.blocks ≡ true) back l) in
    let at : b.addr ≡ ptr - header_size = find_block-addr (ptr - header_size) h.blocks b e in
    let (h', q, x, m) = freed h b v (subst (λ c. find_block c h.blocks ≡ some b) (sym at) e) u in
    let there : word64 (ptr + 2 ^ 64 - header_size) ≡ ptr - header_size =
      omega (arith, low, high) in
    let nonnull : (ptr == 0) ≡ false = ground (arith, low) in
    (
      h',
      rw (nonnull, kfree) (rw there (rw e q)),
      subst (λ p. Shrunk h h' p) (omega (arith, at, back)) x,
      m ∙ ap (λ c. merge (mark_free c h.blocks)) at,
    )

-- On a well-formed heap freeing a live pointer succeeds, removes that allocation and no other, and
-- leaves a well-formed heap, in which no two free blocks are neighbours.
pub kfree-Shrunk :
    (h : Heap) (ptr : ℕ)
    → IsValid h
    → is_live ptr h.blocks ≡ true
    → (h' : Heap) × (kfree ptr h ≡ some h') × Shrunk h h' ptr
kfree-Shrunk h ptr v l = let (h', q, x, m) = kfree_live h ptr v l in (h', q, x)

free_found-free : (h : Heap) (b : Block) → b.is_free ≡ true → free_found h (some b) ≡ some h
unfolding free_found
free_found-free h b free = rw free

free_found-none : (h : Heap) → free_found h none ≡ none
unfolding free_found
free_found-none h = refl

kfree_null : (h : Heap) (ptr : ℕ) → (ptr == 0) ≡ true → kfree ptr h ≡ some h
unfolding kfree
kfree_null h ptr null = rw (null, kfree)

-- Freeing a pointer whose header is found and says that the block is free changes nothing.
pub kfree_free_block :
    (h : Heap) (ptr : ℕ) (b : Block)
    → find_block (word64 (ptr + 2 ^ 64 - header_size)) h.blocks ≡ some b
    → b.is_free ≡ true
    → kfree ptr h ≡ some h
unfolding kfree free_found
kfree_free_block h ptr b e free = elim (Bool-cases (ptr == 0)) [
  | inl null ↦ rw (null, kfree)
  | inr other ↦ rw (other, kfree) (rw e (rw free))
]

kfree_found :
    (h : Heap) (ptr : ℕ) (o : Option Block)
    → (ptr == 0) ≡ false
    → find_block (word64 (ptr + 2 ^ 64 - header_size)) h.blocks ≡ o
    → kfree ptr h ≡ free_found h o
unfolding kfree
kfree_found h ptr o nonnull e = rw (nonnull, kfree) (ap (free_found h) e)

free_found-IsValid :
    (h h' : Heap) (b : Block)
    → IsValid h
    → find_block b.addr h.blocks ≡ some b
    → free_found h (some b) ≡ some h'
    → IsValid h'
free_found-IsValid h h' b v found e = elim (Bool-cases b.is_free) [
  | inl free ↦ subst IsValid (ground (arith, free_found-free h b free, e)) v
  | inr used ↦
      let (g, q, x, m) = freed h b v found used in subst IsValid (ground (arith, q, e)) x.valid
]

-- Whatever pointer is freed, a heap that comes back is well formed.
pub kfree-IsValid : (h h' : Heap) (ptr : ℕ) → IsValid h → kfree ptr h ≡ some h' → IsValid h'
kfree-IsValid h h' ptr v e = elim (Bool-cases (ptr == 0)) [
  | inl null ↦ subst IsValid (ground (arith, kfree_null h ptr null, e)) v
  | inr other ↦ elim (Option-cases (find_block addr h.blocks)) [
    | inl missing ↦
        absurd (ground (arith, kfree_found h ptr none other missing, free_found-none h, e))
    | inr (b, found) ↦
        free_found-IsValid h h' b v
          (subst (λ c. find_block c h.blocks ≡ some b) (sym (find_block-addr addr h.blocks b found))
            found)
          (sym (kfree_found h ptr (some b) other found) ∙ e)
  ]
]
  where
    addr : ℕ
    addr = word64 (ptr + 2 ^ 64 - header_size)
