-- ===== src/Kmalloc/Merge.antt =====
-- src/kernel/kmalloc.c: the two steps of `kfree`, marking a block and merging free neighbours.
use zoho_os.Prelude.{
  ℕ, ◌+◌, ◌^◌, ◌≤◌, ◌<◌, ◌≡◌, refl, ap, ◌∙◌, subst, sym, Bool, true, false, ◌&&◌, some, List, [],
  ◌∷◌, arith, ◌==◌, Bool-cases, inl, inr,
}
use zoho_os.Kmalloc.{Block, header_size, payload, word64, merge_from, merge, find_block, mark_free}
use zoho_os.Kmalloc.Shape.{Tiles, Coalesced, used_bytes, used_count, live, Inserted, Inserted-live}

-- Merging `bs` gave `cs`: the same range and the same live allocations, fully coalesced.
pub record Merged (a end : ℕ) (bs cs : List Block) : Type 0 where
  pub tiles : Tiles a cs end
  pub coalesced : Coalesced false cs
  pub bytes : used_bytes cs ≡ used_bytes bs
  pub count : used_count cs ≡ used_count bs
  pub lives : live cs ≡ live bs

joined : Block → Block → Block
joined curr next = record curr { size = word64 (curr.size + (next.size + header_size)) }

pub Tiles-le : (a end : ℕ) (bs : List Block) → Tiles a bs end → a ≤ end
Tiles-le a end [] t = omega arith
Tiles-le a end (b ∷ rest) t = omega (arith, Tiles-le (a + header_size + b.size) end rest t.2)

joined-Tiles :
    (a end : ℕ) (curr next : Block) (rest : List Block)
    → end < 2 ^ 63
    → Tiles a (curr ∷ next ∷ rest) end
    → Tiles a (joined curr next ∷ rest) end
unfolding joined
joined-Tiles a end curr next rest small t =
    (t.0, omega (arith, le), subst (λ c. Tiles c rest end) (omega (arith, le)) t.2.2)
  where
    le : a + header_size + curr.size + header_size + next.size ≤ end
    le = Tiles-le _ end rest t.2.2

merge_from-Tiles :
    (a end : ℕ) (curr : Block) (rest : List Block)
    → end < 2 ^ 63
    → Tiles a (curr ∷ rest) end
    → Tiles a (merge_from curr rest) end
unfolding merge_from joined
merge_from-Tiles a end curr [] small t = t
merge_from-Tiles a end curr (next ∷ rest) small t =
    elim (Bool-cases (curr.is_free && next.is_free)) [
      | inl both ↦
          rw (both, merge_from)
            (merge_from-Tiles a end (joined curr next) rest small
              (joined-Tiles a end curr next rest small t))
      | inr apart ↦
          rw (apart, merge_from)
            (t.0, t.1, merge_from-Tiles (a + header_size + curr.size) end next rest small t.2)
    ]

merge_from-Coalesced :
    (before : Bool) (curr : Block) (rest : List Block)
    → (before && curr.is_free) ≡ false
    → Coalesced before (merge_from curr rest)
unfolding merge_from
merge_from-Coalesced before curr [] h = (h, tt)
merge_from-Coalesced before curr (next ∷ rest) h =
    elim (Bool-cases (curr.is_free && next.is_free)) [
      | inl both ↦ rw (both, merge_from) (merge_from-Coalesced before _ rest h)
      | inr apart ↦ rw (apart, merge_from) (h, merge_from-Coalesced curr.is_free next rest apart)
    ]

-- A measure of lists of blocks that free blocks do not count in is kept.
module _ {M : Type 0} (measure : List Block → M)
    (skip : (b : Block) (bs : List Block) → b.is_free ≡ true → measure (b ∷ bs) ≡ measure bs)
    (cong : (b : Block) (bs cs : List Block)
      → measure bs ≡ measure cs
      → measure (b ∷ bs) ≡ measure (b ∷ cs)) where
  merge_from_keeps :
      (curr : Block) (rest : List Block) → measure (merge_from curr rest) ≡ measure (curr ∷ rest)
  unfolding merge_from
  merge_from_keeps curr [] = refl
  merge_from_keeps curr (next ∷ rest) = elim (Bool-cases (curr.is_free && next.is_free)) [
    | inl both ↦ rw (both, merge_from) (merge_from_keeps _ rest ∙ dropped next curr rest both)
    | inr apart ↦ rw (apart, merge_from) (cong curr _ _ (merge_from_keeps next rest))
  ]
    where
      dropped :
          (next curr : Block) (rest : List Block)
          → (curr.is_free && next.is_free) ≡ true
          → {size : ℕ} → measure (record curr { size = size } ∷ rest) ≡ measure (curr ∷ next ∷ rest)
      dropped next curr rest both =
          skip _ rest (ground arith)
          ∙ sym (skip curr _ (ground arith) ∙ skip next rest (ground arith))

pub merge-Merged :
    (a end : ℕ) (bs : List Block) → end < 2 ^ 63 → Tiles a bs end → Merged a end bs (merge bs)
unfolding merge
merge-Merged a end [] small t = record {
  tiles = t;
  coalesced = tt;
  bytes = refl;
  count = refl;
  lives = refl;
}
merge-Merged a end (b ∷ rest) small t = record {
  tiles = merge_from-Tiles a end b rest small t;
  coalesced = merge_from-Coalesced false b rest refl;
  bytes = merge_from_keeps used_bytes (λ b bs e. ground arith) (λ b bs cs e. ground arith) b rest;
  count = merge_from_keeps used_count (λ b bs e. ground arith) (λ b bs cs e. ground arith) b rest;
  lives = merge_from_keeps live (λ b bs e. ground arith) (λ b bs cs e. ground arith) b rest;
}

-- Merging a coalesced list changes nothing.
pub merge_from_unchanged :
    (curr : Block) (rest : List Block)
    → Coalesced curr.is_free rest
    → merge_from curr rest ≡ curr ∷ rest
unfolding merge_from
merge_from_unchanged curr [] c = refl
merge_from_unchanged curr (next ∷ rest) c =
    rw (c.0, merge_from) (ap (◌∷◌ curr) (merge_from_unchanged next rest c.1))

-- Marking the live block `b` in `bs` gave `cs`: one live allocation fewer, nothing else moved.
pub record Marked (b : Block) (bs cs : List Block) : Type 0 where
  pub bytes : used_bytes cs + b.size ≡ used_bytes bs
  pub count : used_count cs + 1 ≡ used_count bs
  pub one_fewer : Inserted (payload b, b.size) (live cs) (live bs)

pub mark_free-Tiles :
    (addr a end : ℕ) (bs : List Block) → Tiles a bs end → Tiles a (mark_free addr bs) end
unfolding mark_free
mark_free-Tiles addr a end [] t = t
mark_free-Tiles addr a end (b ∷ rest) t = elim (Bool-cases (b.addr == addr)) [
  | inl hit ↦ rw (hit, mark_free) (t.0, t.1, t.2)
  | inr miss ↦
      rw (miss, mark_free) (t.0, t.1, mark_free-Tiles addr (a + header_size + b.size) end rest t.2)
]

pub find_block-addr :
    (addr : ℕ) (bs : List Block) (b : Block) → find_block addr bs ≡ some b → b.addr ≡ addr
unfolding find_block
find_block-addr addr [] b e = cc
find_block-addr addr (x ∷ rest) b e = ground (arith, find_block-addr addr rest b)

pub mark_free-Marked :
    (addr : ℕ) (bs : List Block) (b : Block)
    → find_block addr bs ≡ some b
    → b.is_free ≡ false
    → Marked b bs (mark_free addr bs)
unfolding find_block mark_free
mark_free-Marked addr [] b e u = cc
mark_free-Marked addr (x ∷ rest) b e u = elim (Bool-cases (x.addr == addr)) [
  | inl hit ↦
      rw (hit, mark_free)
        (record {
          bytes = ground arith;
          count = ground arith;
          one_fewer = ([], live rest, ground arith, ground arith);
        })
  | inr miss ↦
      let m : Marked b rest (mark_free addr rest) = mark_free-Marked addr rest b (ground arith) u in
      rw (miss, mark_free)
        (record {
          bytes = ground (arith, m.bytes);
          count = ground (arith, m.count);
          one_fewer = Inserted-live x (mark_free addr rest) rest (payload b, b.size) m.one_fewer;
        })
]
