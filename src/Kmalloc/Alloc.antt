-- ===== src/Kmalloc/Alloc.antt =====
-- src/kernel/kmalloc.c: what `kmalloc` does on a well-formed heap.
use zoho_os.Prelude.{
  ℕ, suc, ◌+◌, ◌-◌, ◌*◌, ◌%◌, ◌^◌, ◌≤◌, ◌<◌, ◌≡◌, ◌≢◌, refl, ap, true, false, none, some, arith,
  Option-cases, inl, inr, length,
}
use zoho_os.Kmalloc.{
  Found, Heap, header_size, heap_start, heap_size, word64, align8, first_fit, finish_alloc, kmalloc,
}
use zoho_os.Kmalloc.Shape.{
  used_bytes, unused_bytes, live, Inserted, IsValid, Tiles-total, used_count-le,
}
use zoho_os.Kmalloc.Fit.{FitFound, any_fits, first_fit-none, first_fit-some, first_fit-FitFound}

pub align8-mod : (size : ℕ) → align8 size % 8 ≡ 0
unfolding align8
align8-mod size = omega arith

-- Rounding is up to the next multiple of 8 as long as it does not wrap.
pub align8_bounds : (size : ℕ) → size + 7 < 2 ^ 64 → (size ≤ align8 size) × (align8 size < size + 8)
unfolding align8
align8_bounds size h = omega arith

abbrev heap_end : ℕ
heap_end = heap_start + heap_size

-- `h'` is `h` with a live allocation of at least `size` bytes at `ptr` more.
pub record Grown (h h' : Heap) (size ptr : ℕ) : Type 0 where
  pub valid : IsValid h'
  pub nonnull : ptr ≢ 0
  pub got : ℕ
  pub enough : size ≤ got
  pub one_more : Inserted (ptr, got) (live h.blocks) (live h'.blocks)

pub grown :
    (h : Heap) (size : ℕ) (f : Found)
    → IsValid h
    → first_fit (align8 size) h.blocks ≡ some f
    → Grown h (kmalloc size h).1 (align8 size) (kmalloc size h).0
unfolding kmalloc
grown h size f v e =
    let x =
      first_fit-FitFound heap_end (align8 size) (omega arith) (align8-mod size) heap_start h.blocks
        f v.tiles e in
    rw (e, kmalloc)
      (record {
        valid = record {
          tiles = x.tiles;
          coalesced = x.coalesced false v.coalesced;
          used = omega (arith, x.bytes, whole f x);
          count = omega (arith, x.count, whole f x, used_count-le f.list);
        };
        nonnull = omega (arith, x.inside);
        got = f.got;
        enough = x.enough;
        one_more = x.one_more;
      })
  where
    whole :
        (f : Found)
        → FitFound heap_start heap_end (align8 size) h.blocks f
        → heap_start + used_bytes f.list + unused_bytes f.list + header_size * length f.list
          ≡ heap_end
    whole f x = Tiles-total heap_start heap_end f.list x.tiles

failed :
    (h : Heap) (size : ℕ)
    → IsValid h
    → first_fit (align8 size) h.blocks ≡ none
    → ((kmalloc size h).0 ≡ 0) × ((kmalloc size h).1.blocks ≡ h.blocks) × IsValid (kmalloc size h).1
unfolding kmalloc
failed h size v e =
    rw (e, kmalloc)
      (
        refl,
        refl,
        record { tiles = v.tiles; coalesced = v.coalesced; used = v.used; count = v.count },
      )

-- On a well-formed heap `kmalloc` succeeds whenever some free block holds the rounded size: the heap
-- stays well formed and gains one live allocation of at least that size, at an address that is not NULL.
pub kmalloc-Grown :
    (h : Heap) (size : ℕ)
    → IsValid h
    → any_fits (align8 size) h.blocks ≡ true
    → Grown h (kmalloc size h).1 (align8 size) (kmalloc size h).0
kmalloc-Grown h size v fits =
    let (f, e) = first_fit-some (align8 size) h.blocks fits in grown h size f v e

-- If none does, it returns NULL, changes no block, counts the failure and changes no other counter.
pub kmalloc_fails :
    (h : Heap) (size : ℕ)
    → any_fits (align8 size) h.blocks ≡ false
    → kmalloc size h ≡ (
      0,
      record h {
        stats = record h.stats { failed_allocations = word64 (h.stats.failed_allocations + 1) };
      },
    )
unfolding kmalloc
kmalloc_fails h size none_fits = rw (first_fit-none (align8 size) h.blocks none_fits, kmalloc)

pub kmalloc-IsValid : (h : Heap) (size : ℕ) → IsValid h → IsValid (kmalloc size h).1
kmalloc-IsValid h size v = elim (Option-cases (first_fit (align8 size) h.blocks)) [
  | inl e ↦ (failed h size v e).2
  | inr (f, e) ↦ (grown h size f v e).valid
]

wraps : (k : ℕ) → k < 7 → align8 (2 ^ 64 - suc k) ≡ align8 0
unfolding align8
wraps k small = omega arith

-- A size in the last seven bytes of the address space wraps to 0 when it is rounded: such a request
-- is served as one of 0 bytes.
pub kmalloc_wraps : (h : Heap) (k : ℕ) → k < 7 → kmalloc (2 ^ 64 - suc k) h ≡ kmalloc 0 h
unfolding kmalloc
kmalloc_wraps h k small = ap (λ (s : ℕ). finish_alloc h (first_fit s h.blocks)) (wraps k small)
