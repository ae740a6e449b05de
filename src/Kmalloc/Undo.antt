-- ===== src/Kmalloc/Undo.antt =====
-- src/kernel/kmalloc.c: freeing what was just allocated.
use zoho_os.Prelude.{
  ℕ, ◌+◌, ◌-◌, ◌%◌, ◌^◌, ◌≤◌, ◌<◌, ◌≡◌, refl, ap, subst, sym, ◌∙◌, true, false, ◌&&◌, some, List,
  [], ◌∷◌, arith, leb, ◌==◌, Bool-cases, Option-cases, inl, inr,
}
use zoho_os.Kmalloc.{
  Block, Found, Heap, header_size, heap_start, heap_size, payload, word64, align8, split,
  taken_size, first_fit, mark_free, merge_from, merge, kmalloc, kfree,
}
use zoho_os.Kmalloc.Shape.{Tiles, Coalesced, IsValid}
use zoho_os.Kmalloc.Merge.{merge_from_unchanged, Tiles-le}
use zoho_os.Kmalloc.Fit.{any_fits, first_fit-some, first_fit-FitFound}
use zoho_os.Kmalloc.Alloc.{align8-mod, grown}
use zoho_os.Kmalloc.Free.{kfree_live, Inserted-is_live}

-- The marked list merges back, behind the block `c`, into the one that the walk started from.
abbrev Undoes : Block → List Block → Found → Type 0
Undoes c bs f = merge_from c (mark_free (f.ptr - header_size) f.list) ≡ c ∷ bs

at_payload : (a : ℕ) → (a == (a + header_size - header_size)) ≡ true
at_payload a = ground arith

co_used : (c b : Block) → (c.is_free && b.is_free) ≡ false → b.is_free ≡ true → c.is_free ≡ false
co_used c b h free = ground arith

behind_used :
    (c b : Block) (rest : List Block) {bs : List Block}
    → c.is_free ≡ false
    → merge_from b rest ≡ bs
    → merge_from c (b ∷ rest) ≡ c ∷ bs
unfolding merge_from
behind_used c b rest u e =
    let apart : (c.is_free && b.is_free) ≡ false = ground arith in
    rw (apart, merge_from) (ap (◌∷◌ c) e)

undone_here :
    (size : ℕ) (c b : Block) (rest : List Block)
    → b.size < 2 ^ 63
    → Coalesced c.is_free (b ∷ rest)
    → b.is_free ≡ true
    → size ≤ b.size
    → Undoes c
        (b ∷ rest)
        (record { ptr = payload b; got = taken_size b size; list = split b size rest })
unfolding split mark_free merge_from
undone_here size c b rest small co free fits =
    elim (Bool-cases (leb (word64 (size + header_size + 8)) b.size)) [
      | inl cut ↦
          rw (cut, split)
            (rw (at_payload b.addr) (
              behind_used c (record { addr = b.addr; size = size; is_free = true }) (tail ∷ rest)
                used (freed_rest (word64 (size + (tail.size + header_size))) (ground arith))))
      | inr whole ↦
          rw (whole, split)
            (rw (at_payload b.addr)
              (behind_used c (record b { is_free = true }) rest used (freed_rest b.size refl)))
    ]
  where
    used : c.is_free ≡ false
    used = co_used c b co.0 free

    tail : Block
    tail = record {
      addr = b.addr + header_size + size;
      size = b.size - size - header_size;
      is_free = true;
    }

    freed_rest :
        (n : ℕ)
        → n ≡ b.size
        → merge_from (record { addr = b.addr; size = n; is_free = true }) rest ≡ b ∷ rest
    freed_rest n e =
        merge_from_unchanged _ rest (subst (λ v. Coalesced v rest) free co.1)
        ∙ ap (λ (x : Block). x ∷ rest) (ground arith)

undone_below :
    (c b : Block) (rest : List Block) (g : Found)
    → b.addr < g.ptr - header_size
    → Coalesced c.is_free (b ∷ rest)
    → Undoes b rest g
    → Undoes c (b ∷ rest) (record g { list = b ∷ g.list })
unfolding mark_free merge_from
undone_below c b rest g lt co u =
    let miss : (b.addr == (g.ptr - header_size)) ≡ false = ground arith in
    rw miss (rw (co.0, merge_from) (ap (◌∷◌ c) u))

undone :
    (size a end : ℕ) (c : Block) (bs : List Block) (f : Found)
    → end < 2 ^ 63
    → size % 8 ≡ 0
    → Tiles a bs end
    → Coalesced c.is_free bs
    → first_fit size bs ≡ some f
    → Undoes c bs f
unfolding first_fit
undone size a end c [] f small m t co e = cc
undone size a end c (b ∷ rest) f small m t co e = elim (Bool-cases (b.is_free && leb size b.size)) [
  | inl hit ↦
      subst (Undoes c (b ∷ rest))
        {x = record { ptr = payload b; got = taken_size b size; list = split b size rest }} {y = f}
        (ground arith)
        (undone_here size c b rest (omega (arith, Tiles-le (a + header_size + b.size) end rest t.2))
          co (ground arith) (ground arith))
  | inr miss ↦ elim (Option-cases (first_fit size rest)) [
    | inl nothing ↦ absurd (ground (arith, e))
    | inr (g, found) ↦
        let x = first_fit-FitFound end size small m (a + header_size + b.size) rest g t.2 found in
        subst (Undoes c (b ∷ rest)) {x = record g { list = b ∷ g.list }} {y = f} (ground arith) (
          undone_below c b rest g (omega (arith, x.inside)) co
            (undone size (a + header_size + b.size) end b rest g small m t.2 co.1 found))
  ]
]

merge_after_used :
    (c : Block) (bs : List Block) → c.is_free ≡ false → merge_from c bs ≡ c ∷ merge bs
unfolding merge merge_from
merge_after_used c [] u = refl
merge_after_used c (b ∷ rest) u = behind_used c b rest u refl

-- The block before the heap that makes the walk's first block one like the others.
abbrev guard : Block
guard = record { addr = 0; size = 0; is_free = false }

cons_tail : (c : Block) (bs cs : List Block) → c ∷ bs ≡ c ∷ cs → bs ≡ cs
cons_tail c bs cs e = cc

restored :
    (h : Heap) (size : ℕ) (f : Found)
    → IsValid h
    → first_fit (align8 size) h.blocks ≡ some f
    → merge (mark_free ((kmalloc size h).0 - header_size) (kmalloc size h).1.blocks) ≡ h.blocks
unfolding kmalloc
restored h size f v e =
    rw (e, kmalloc)
      (cons_tail guard _ _ (
        sym (merge_after_used guard (mark_free (f.ptr - header_size) f.list) refl)
        ∙ undone (align8 size) heap_start (heap_start + heap_size) guard h.blocks f (omega arith)
            (align8-mod size) v.tiles v.coalesced e))

-- On a well-formed heap where some free block holds the rounded size, freeing what `kmalloc` has
-- just returned gives back the blocks as they were, header for header,
-- and the counters of live allocations and of bytes in use.
pub kfree-kmalloc :
    (h : Heap) (size : ℕ)
    → IsValid h
    → any_fits (align8 size) h.blocks ≡ true
    → (h' : Heap) × (kfree (kmalloc size h).0 (kmalloc size h).1 ≡ some h')
      × (h'.blocks ≡ h.blocks)
      × (h'.stats.bytes_used ≡ h.stats.bytes_used)
      × (h'.stats.live_allocations ≡ h.stats.live_allocations)
kfree-kmalloc h size v fits =
    let (f, e) = first_fit-some (align8 size) h.blocks fits in
    let g = grown h size f v e in
    let (h', q, x, blocks) =
      kfree_live (kmalloc size h).1 (kmalloc size h).0 g.valid
        (Inserted-is_live (kmalloc size h).0 g.got _ _ g.one_more) in
    let same : h'.blocks ≡ h.blocks = blocks ∙ restored h size f v e in
    (
      h',
      q,
      same,
      ground (arith, x.valid.used, v.used, same),
      ground (arith, x.valid.count, v.count, same),
    )
