-- ===== src/Pmm/Invariant.antt =====
-- src/kernel/pmm.c: the free stack and the bitmap agree, and every call keeps it so.
use zoho_os.Prelude.{
  ℕ, suc, ◌/◌, ◌≤◌, ◌≡◌, ap, Bool, not, ◌&&◌, List, [], ◌∷◌, arith, ltb, update, has, Distinct, inl,
  inr, Nat-cases, drop, sym, ◌∙◌,
}
use zoho_os.Pmm.{
  page_size, max_frames, Pmm, alloc_at, pmm_alloc_frame, pmm_free_frame, pmm_ref_inc, Call,
  alloc_frame, free_frame, ref_inc, step, run,
}
use zoho_os.Pmm.Bitmap.{bitmap_set, bitmap_test, bitmap_test-bitmap_set, bitmap_test-bitmap_unset}
use zoho_os.Pmm.Frames.{
  stack_frames, Aligned, length-stack_frames, stack_frames-push, length-le_of_Below,
}

-- The frames on the free stack, the next to be handed out first.
abbrev pub frames : Pmm → List ℕ
frames p = stack_frames p.free_stack p.depth

-- The frame is managed and its bit is clear.
abbrev pub is_free : Pmm → ℕ → Bool
is_free p f = ltb f max_frames && not (bitmap_test p.frame_bitmap f)

-- No frame is on the stack twice, and a frame is on it exactly when its bit is clear.
pub record IsValid (p : Pmm) : Type 0 where
  pub distinct : Distinct (frames p)
  pub agree : (f : ℕ) → has f (frames p) ≡ is_free p f

-- Every entry of the stack is the address of a frame's first byte.
abbrev pub IsAligned : Pmm → Type 0
IsAligned p = Aligned p.free_stack p.depth

-- The stack fits its array.
pub depth-le : (p : Pmm) → IsValid p → p.depth ≤ max_frames
depth-le p v = omega (
  arith,
  length-stack_frames p.free_stack p.depth,
  length-le_of_Below max_frames (frames p) v.distinct (λ a h. ground (arith, v.agree a)),
)

-- What the allocator does when the stack holds an entry.
pub alloc_eq :
    (p : Pmm) (n : ℕ)
    → p.depth ≡ suc n
    → pmm_alloc_frame p ≡ (
      p.free_stack n,
      record p {
        depth = n;
        frame_bitmap = bitmap_set p.frame_bitmap (p.free_stack n / page_size);
        ref_counts = update p.ref_counts (p.free_stack n / page_size) 1;
      },
    )
unfolding pmm_alloc_frame
alloc_eq p n e = ap (alloc_at p) e

pub alloc_empty : (p : Pmm) → p.depth ≡ 0 → pmm_alloc_frame p ≡ (0, p)
unfolding pmm_alloc_frame
alloc_empty p e = ap (alloc_at p) e

pub frames-alloc : (p : Pmm) → frames (pmm_alloc_frame p).1 ≡ drop 1 (frames p)
frames-alloc p = elim (Nat-cases p.depth) [
  | inl e ↦ rw (alloc_empty p e) (none_left e ∙ sym (ap (drop 1) (none_left e)))
  | inr (n, e) ↦ rw (alloc_eq p n e) (sym (ap (λ m. drop 1 (stack_frames p.free_stack m)) e))
]
  where
    none_left : {n : ℕ} → n ≡ 0 → stack_frames p.free_stack n ≡ []
    none_left e = ap (stack_frames p.free_stack) e

alloc_some : (p : Pmm) (n : ℕ) → p.depth ≡ suc n → IsValid p → IsValid (pmm_alloc_frame p).1
alloc_some p n e v = rw (alloc_eq p n e) (record {
  distinct = ground (arith, v.distinct, top);
  agree = λ f. ground (
    arith,
    v.distinct,
    v.agree f,
    v.agree (p.free_stack n / page_size),
    top,
    bitmap_test-bitmap_set p.frame_bitmap (p.free_stack n / page_size) f,
  );
})
  where
    top : frames p ≡ (p.free_stack n / page_size) ∷ stack_frames p.free_stack n
    top = ap (stack_frames p.free_stack) e

pub alloc-IsValid : (p : Pmm) → IsValid p → IsValid (pmm_alloc_frame p).1
unfolding pmm_alloc_frame
alloc-IsValid p v = elim (Nat-cases p.depth) [
  | inl e ↦ ground (arith, v.distinct, v.agree)
  | inr (n, e) ↦ alloc_some p n e v
]

pub ref_inc-IsValid : (p : Pmm) (a : ℕ) → IsValid p → IsValid (pmm_ref_inc p a)
unfolding pmm_ref_inc
ref_inc-IsValid p a v = record { distinct = ground arith; agree = λ f. ground (arith, v.agree f) }

pub free-IsValid : (p : Pmm) (a : ℕ) → IsValid p → IsValid (pmm_free_frame p a)
unfolding pmm_free_frame
free-IsValid p a v = record {
  distinct =
      ground (arith, v.distinct, v.agree (a / page_size), stack_frames-push p.free_stack p.depth a);
  agree = λ f. ground (
    arith,
    v.agree f,
    v.agree (a / page_size),
    stack_frames-push p.free_stack p.depth a,
    bitmap_test-bitmap_unset p.frame_bitmap (a / page_size) f,
  );
}

-- Each allocator call, whatever its argument, keeps the stack and the bitmap in agreement.
pub step-IsValid : (p : Pmm) (c : Call) → IsValid p → IsValid (step p c)
unfolding step
step-IsValid p alloc_frame v = alloc-IsValid p v
step-IsValid p (free_frame a) v = free-IsValid p a v
step-IsValid p (ref_inc a) v = ref_inc-IsValid p a v

-- So does any sequence of calls.
pub run-IsValid : (p : Pmm) (cs : List Call) → IsValid p → IsValid (run p cs)
unfolding run
run-IsValid p [] v = v
run-IsValid p (c ∷ cs) v = run-IsValid (step p c) cs (step-IsValid p c v)
