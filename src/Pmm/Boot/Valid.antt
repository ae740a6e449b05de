-- ===== src/Pmm/Boot/Valid.antt =====
-- src/kernel/pmm.c: the last loop of `pmm_init`, which builds the free stack from the bitmap.
use zoho_os.Prelude.{
  ℕ, zero, suc, ◌+◌, ◌*◌, ◌/◌, ◌<◌, ◌≡◌, refl, true, not, ◌&&◌, ◌||◌, ◌∷◌, arith, ltb, leb,
  if◌then◌else◌, has, Distinct, inl, inr, Bool-cases, ◌∙◌,
}
use zoho_os.Pmm.{page_size, Pmm, push}
use zoho_os.Pmm.Bitmap.{bitmap_test}
use zoho_os.Pmm.Frames.{stack_frames-push, Aligned-push}
use zoho_os.Pmm.Invariant.{frames, IsAligned}
use zoho_os.Pmm.Boot.{collect, collect_one}

-- `q` has on its stack what `p` has and the clear frames from `from` up to `from + left`.
pub record Collected (left from : ℕ) (p q : Pmm) : Type 0 where
  pub same_bits : q.frame_bitmap ≡ p.frame_bitmap
  pub distinct : Distinct (frames q)
  pub aligned : IsAligned q
  pub holds :
      (g : ℕ)
      → has g (frames q) ≡ (
          has g (frames p)
          || (leb from g && ltb g (from + left) && not (bitmap_test p.frame_bitmap g)))

abbrev AllBelow : ℕ → Pmm → Type 0
AllBelow from p = (g : ℕ) → has g (frames p) ≡ true → g < from

frame_of_address : (f : ℕ) → f * page_size / page_size ≡ f
frame_of_address f = omega arith

module _ (f : ℕ) (p : Pmm) where
  one_bits : (collect_one f p).frame_bitmap ≡ p.frame_bitmap
  unfolding collect_one push
  one_bits = ground arith

  one_frames :
      frames (collect_one f p) ≡ (if bitmap_test p.frame_bitmap f then frames p else f ∷ frames p)
  unfolding collect_one push
  one_frames = elim (Bool-cases (bitmap_test p.frame_bitmap f)) [
    | inl used ↦ rw (used, collect_one)
    | inr clear ↦
        rw (clear, collect_one)
          (rw (stack_frames-push p.free_stack p.depth (f * page_size), frame_of_address f))
  ]

  one-IsAligned : IsAligned p → IsAligned (collect_one f p)
  unfolding collect_one push
  one-IsAligned a = elim (Bool-cases (bitmap_test p.frame_bitmap f)) [
    | inl used ↦ rw (used, collect_one) a
    | inr clear ↦
        rw (clear, collect_one) (Aligned-push p.free_stack p.depth (f * page_size) (omega arith) a)
  ]

pub collect-Collected :
    (left from : ℕ) (p : Pmm)
    → Distinct (frames p)
    → IsAligned p
    → AllBelow from p
    → Collected left from p (collect left from p)
unfolding collect
collect-Collected zero from p d a b = record {
  same_bits = refl;
  distinct = d;
  aligned = a;
  holds = λ g. ground arith;
}
collect-Collected (suc left) from p d a b =
    let r =
      collect-Collected left (suc from) (collect_one from p)
        (ground (arith, one_frames from p, b from)) (one-IsAligned from p a)
        (λ g. ground (arith, one_frames from p, b g)) in
    record {
      same_bits = r.same_bits ∙ one_bits from p;
      distinct = r.distinct;
      aligned = r.aligned;
      holds = λ g. ground (arith, r.holds g, one_frames from p, one_bits from p, b g);
    }
