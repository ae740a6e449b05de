-- ===== src/Pmm/Counts.antt =====
-- src/kernel/pmm.c: what a caller gets from the allocator, and what its reference counts mean.
use zoho_os.Prelude.{
  ℕ, zero, suc, ◌+◌, ◌-◌, ◌/◌, ◌^◌, ◌<◌, ◌≡◌, refl, ap, ◌≢◌, true, List, ◌∷◌, arith, update, inl,
  inr, Nat-cases, ◌∙◌, sym, subst, update_self,
}
use mathlib.Core.Path.{fun_ext}
use zoho_os.Pmm.{
  page_size, max_frames, Pmm, pmm_alloc_frame, pmm_free_frame, pmm_ref_inc, pmm_get_ref,
  pmm_get_free_count, push,
}
use zoho_os.Pmm.Bitmap.{bitmap_set, bitmap_unset, bitmap_test, bitmap_test-bitmap_set}
use zoho_os.Pmm.Frames.{stack_frames, stack_frames-push}
use zoho_os.Pmm.Invariant.{frames, is_free, IsValid, alloc_eq}

-- The frame is managed and in use.
abbrev pub IsUsed : Pmm → ℕ → Type 0
IsUsed p a = (a / page_size < max_frames) × (bitmap_test p.frame_bitmap (a / page_size) ≡ true)

-- What a successful allocation from `p` gives: address `a` and state `q`.
pub record Allocated (p q : Pmm) (a : ℕ) : Type 0 where
  pub was_free : is_free p (a / page_size) ≡ true
  pub used : IsUsed q a
  pub one_owner : pmm_get_ref q a ≡ 1
  pub one_less : pmm_get_free_count q + 1 ≡ pmm_get_free_count p
  pub others :
      (b : ℕ)
      → b / page_size ≢ a / page_size
      → (is_free q (b / page_size) ≡ is_free p (b / page_size))
        × (pmm_get_ref q b ≡ pmm_get_ref p b)

-- With a free frame on a valid stack, the allocator hands one out: it was free, now has one owner and
-- is in use, the count of free frames drops by one, and no other frame changes.
pub alloc-Allocated :
    (p : Pmm)
    → IsValid p
    → 0 < pmm_get_free_count p
    → Allocated p (pmm_alloc_frame p).1 (pmm_alloc_frame p).0
unfolding pmm_get_ref pmm_get_free_count
alloc-Allocated p v h = elim (Nat-cases p.depth) [
  | inl e ↦ absurd (omega arith)
  | inr (n, e) ↦ rw (alloc_eq p n e) (go n e (p.free_stack n) refl)
]
  where
    go :
        (n : ℕ)
        → p.depth ≡ suc n
        → (a : ℕ) → p.free_stack n ≡ a
        → Allocated p
            (record p {
              depth = n;
              frame_bitmap = bitmap_set p.frame_bitmap (p.free_stack n / page_size);
              ref_counts = update p.ref_counts (p.free_stack n / page_size) 1;
            })
            (p.free_stack n)
    go n e a ea =
        let top : frames p ≡ (p.free_stack n / page_size) ∷ stack_frames p.free_stack n =
          ap (stack_frames p.free_stack) e in
        let was : is_free p (p.free_stack n / page_size) ≡ true =
          ground (arith, v.agree (p.free_stack n / page_size), top) in
        record {
          was_free = was;
          used = ground (
            arith,
            was,
            bitmap_test-bitmap_set p.frame_bitmap (p.free_stack n / page_size)
                (p.free_stack n / page_size),
          );
          one_owner = ground (arith, was);
          one_less = omega arith;
          others = λ b d. ground (
            arith,
            bitmap_test-bitmap_set p.frame_bitmap (p.free_stack n / page_size) (b / page_size),
          );
        }

-- What a free does on each branch: the address is unmanaged or has no owner, has several, or one.
free_unowned : (p : Pmm) (a : ℕ) → pmm_get_ref p a ≡ 0 → pmm_free_frame p a ≡ p
unfolding pmm_free_frame pmm_get_ref
free_unowned p a h = ground arith

pub free_shared :
    (p : Pmm) (a n : ℕ)
    → pmm_get_ref p a ≡ suc (suc n)
    → pmm_free_frame p a ≡ record p { ref_counts = update p.ref_counts (a / page_size) (suc n) }
unfolding pmm_free_frame pmm_get_ref
free_shared p a n h = ground arith

pub free_last :
    (p : Pmm) (a : ℕ)
    → IsUsed p a
    → pmm_get_ref p a ≡ 1
    → pmm_free_frame p a
      ≡ push
          (record p {
            frame_bitmap = bitmap_unset p.frame_bitmap (a / page_size);
            ref_counts = update p.ref_counts (a / page_size) 0;
          })
          a
unfolding pmm_free_frame pmm_get_ref push
free_last p a u h = ground arith

ref_inc_owned :
    (p : Pmm) (a : ℕ)
    → 0 < pmm_get_ref p a
    → pmm_get_ref p a + 1 < 2 ^ 32
    → pmm_ref_inc p a ≡ record p {
      ref_counts = update p.ref_counts (a / page_size) (suc (p.ref_counts (a / page_size)));
    }
unfolding pmm_ref_inc pmm_get_ref
ref_inc_owned p a h k = ground arith

update-update_back : (f : ℕ → ℕ) (i v w : ℕ) → w ≡ f i → update (update f i v) i w ≡ f
update-update_back f i v w e = fun_ext λ j. ground arith

-- An owner more and an owner less leave the allocator as it was, if the count does not wrap.
pub free-ref_inc :
    (p : Pmm) (a : ℕ)
    → 0 < pmm_get_ref p a
    → pmm_get_ref p a + 1 < 2 ^ 32
    → pmm_free_frame (pmm_ref_inc p a) a ≡ p
unfolding pmm_get_ref
free-ref_inc p a h k = rw (ref_inc_owned p a h k) (
    free_shared q a (r - 1) (ground arith) ∙ λ i. record p {
      ref_counts =
          update-update_back p.ref_counts (a / page_size) (suc r) (suc (r - 1)) (ground arith) i;
    })
  where
    r : ℕ
    r = p.ref_counts (a / page_size)

    q : Pmm
    q = record p { ref_counts = update p.ref_counts (a / page_size) (suc r) }

-- The last owner's free puts the address on top of the stack: the next allocation returns it.
pub alloc-free_last :
    (p : Pmm) (a : ℕ)
    → IsUsed p a
    → pmm_get_ref p a ≡ 1
    → ((pmm_alloc_frame (pmm_free_frame p a)).0 ≡ a)
      × (frames (pmm_free_frame p a) ≡ (a / page_size) ∷ frames p)
unfolding push
alloc-free_last p a u h = rw (free_last p a u h) (
  ap (λ (r : ℕ × Pmm). r.0) (alloc_eq q p.depth refl) ∙ update_self p.free_stack p.depth a,
  stack_frames-push p.free_stack p.depth a,
)
  where
    q : Pmm
    q =
        push
          (record p {
            frame_bitmap = bitmap_unset p.frame_bitmap (a / page_size);
            ref_counts = update p.ref_counts (a / page_size) 0;
          })
          a

-- A second free of a frame that its last owner has freed does nothing.
pub free_twice :
    (p : Pmm) (a : ℕ)
    → IsUsed p a
    → pmm_get_ref p a ≡ 1
    → pmm_free_frame (pmm_free_frame p a) a ≡ pmm_free_frame p a
unfolding push pmm_get_ref
free_twice p a u h = rw (free_last p a u h) (free_unowned _ a (ground arith))

-- `n` frees of one frame.
pub frees : ℕ → Pmm → ℕ → Pmm
frees zero p a = p
frees (suc n) p a = frees n (pmm_free_frame p a) a

one_fewer :
    (p : Pmm) (a n : ℕ)
    → IsUsed p a
    → pmm_get_ref (record p { ref_counts = update p.ref_counts (a / page_size) n }) a ≡ n
unfolding pmm_get_ref
one_fewer p a n u = ground arith

-- After `n` frees of `a` it is in use with `fs` on the stack, and one more puts it on top of them.
abbrev pub LastsFor : ℕ → ℕ → List ℕ → Pmm → Type 0
LastsFor n a fs p =
    let q = frees n p a in
    IsUsed q a × (frames q ≡ fs) × (frames (pmm_free_frame q a) ≡ (a / page_size) ∷ fs)

-- A frame with `n + 1` owners stays in use through `n` frees, and the next one gives it back.
pub frees_owners :
    (n : ℕ) (p : Pmm) (a : ℕ) → IsUsed p a → pmm_get_ref p a ≡ suc n → LastsFor n a (frames p) p
unfolding frees
frees_owners zero p a u h = (u, refl, (alloc-free_last p a u h).1)
frees_owners (suc n) p a u h = subst (LastsFor n a (frames p)) (sym (free_shared p a n h)) (
    frees_owners n (record p { ref_counts = update p.ref_counts (a / page_size) (suc n) }) a u
      (one_fewer p a (suc n) u))
