-- ===== src/Kmalloc/Fit.antt =====
-- src/kernel/kmalloc.c: the first-fit walk of `kmalloc` over a tiled heap.
use zoho_os.Prelude.{
  ℕ, ◌+◌, ◌%◌, ◌^◌, ◌≤◌, ◌<◌, ◌≡◌, refl, subst, Bool, true, false, ◌&&◌, ◌||◌, none, some, List, [],
  ◌∷◌, arith, leb, Bool-cases, Option-cases, inl, inr,
}
use zoho_os.Kmalloc.{Block, Found, header_size, payload, word64, split, taken_size, first_fit}
use zoho_os.Kmalloc.Shape.{Tiles, Coalesced, used_bytes, used_count, live, Inserted, Inserted-live}

-- The walk over the blocks `bs` from `a` to `end` for `size` bytes found `f`: the new list is as
-- well formed as the old one, and has one live allocation more.
pub record FitFound (a end size : ℕ) (bs : List Block) (f : Found) : Type 0 where
  pub tiles : Tiles a f.list end
  pub coalesced : (before : Bool) → Coalesced before bs → Coalesced before f.list
  pub enough : size ≤ f.got
  pub inside : a + header_size ≤ f.ptr
  pub bytes : used_bytes f.list ≡ used_bytes bs + f.got
  pub count : used_count f.list ≡ used_count bs + 1
  pub one_more : Inserted (f.ptr, f.got) (live bs) (live f.list)

and_false : (v : Bool) → (v && false) ≡ false
and_false v = ground arith

Coalesced-after_used : (v : Bool) (rest : List Block) → Coalesced v rest → Coalesced false rest
Coalesced-after_used v [] c = tt
Coalesced-after_used v (b ∷ rest) c = (refl, c.1)

split-Coalesced :
    (b : Block) (size : ℕ) (rest : List Block) (before : Bool)
    → b.is_free ≡ true
    → Coalesced before (b ∷ rest)
    → Coalesced before (split b size rest)
unfolding split
split-Coalesced b size rest before free c =
    elim (Bool-cases (leb (word64 (size + header_size + 8)) b.size)) [
      | inl cut ↦ rw (cut, split) (and_false before, (refl, subst (λ v. Coalesced v rest) free c.1))
      | inr whole ↦ rw (whole, split) (and_false before, Coalesced-after_used b.is_free rest c.1)
    ]

-- Is there a free block of at least `size` bytes?
abbrev pub any_fits : ℕ → List Block → Bool
any_fits size [] = false
any_fits size (b ∷ rest) = (b.is_free && leb size b.size) || any_fits size rest

-- The walk fails exactly when there is none.
pub first_fit-none :
    (size : ℕ) (bs : List Block) → any_fits size bs ≡ false → first_fit size bs ≡ none
unfolding first_fit
first_fit-none size [] h = refl
first_fit-none size (b ∷ rest) h = ground (arith, first_fit-none size rest)

pub first_fit-some :
    (size : ℕ) (bs : List Block)
    → any_fits size bs ≡ true
    → (f : Found) × (first_fit size bs ≡ some f)
unfolding first_fit
first_fit-some size [] h = cc
first_fit-some size (b ∷ rest) h = elim (Bool-cases (b.is_free && leb size b.size)) [
  | inl hit ↦
      (record { ptr = payload b; got = taken_size b size; list = split b size rest }, ground arith)
  | inr miss ↦
      let (f, e) = first_fit-some size rest (ground arith) in
      (record f { list = b ∷ f.list }, ground (arith, e))
]

module _ (end size : ℕ) (small : end < 2 ^ 63) (aligned : size % 8 ≡ 0) where
  block_taken :
      (a : ℕ) (b : Block) (rest : List Block)
      → Tiles a (b ∷ rest) end
      → b.is_free ≡ true
      → size ≤ b.size
      → b.size < 2 ^ 63
      → FitFound a end size
          (b ∷ rest)
          (record { ptr = payload b; got = taken_size b size; list = split b size rest })
  unfolding taken_size split
  block_taken a b rest t free fits lt = record {
    tiles = ground arith;
    coalesced = λ before c. split-Coalesced b size rest before free c;
    enough = ground arith;
    inside = ground arith;
    bytes = ground arith;
    count = ground arith;
    one_more = ([], live rest, ground arith, ground arith);
  }

  block_kept :
      (a : ℕ) (b : Block) (rest : List Block) (f : Found)
      → Tiles a (b ∷ rest) end
      → FitFound (a + header_size + b.size) end size rest f
      → FitFound a end size (b ∷ rest) (record f { list = b ∷ f.list })
  block_kept a b rest f t x = record {
    tiles = (t.0, t.1, x.tiles);
    coalesced = λ before c. (c.0, x.coalesced b.is_free c.1);
    enough = x.enough;
    inside = omega (arith, x.inside);
    bytes = ground (arith, x.bytes);
    count = ground (arith, x.count);
    one_more = Inserted-live b rest f.list (f.ptr, f.got) x.one_more;
  }

  Tiles-le : (a : ℕ) (bs : List Block) → Tiles a bs end → a ≤ end
  Tiles-le a [] t = omega arith
  Tiles-le a (b ∷ rest) t = omega (arith, Tiles-le (a + header_size + b.size) rest t.2)

  -- Whatever the walk finds is a good answer.
  pub first_fit-FitFound :
      (a : ℕ) (bs : List Block) (f : Found)
      → Tiles a bs end
      → first_fit size bs ≡ some f
      → FitFound a end size bs f
  unfolding first_fit
  first_fit-FitFound a [] f t e = cc
  first_fit-FitFound a (b ∷ rest) f t e = elim (Bool-cases (b.is_free && leb size b.size)) [
    | inl hit ↦ subst (FitFound a end size (b ∷ rest)) (ground arith) (
        block_taken a b rest t (ground arith) (ground arith)
          (omega (arith, Tiles-le (a + header_size + b.size) rest t.2)))
    | inr miss ↦ elim (Option-cases (first_fit size rest)) [
      | inl nothing ↦ absurd (ground (arith, e))
      | inr (g, found) ↦
          subst (FitFound a end size (b ∷ rest)) (ground arith) (
            block_kept a b rest g t
              (first_fit-FitFound (a + header_size + b.size) rest g t.2 found))
    ]
  ]
