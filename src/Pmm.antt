-- ===== src/Pmm.antt =====
-- src/kernel/pmm.c: the physical frame allocator, `pmm_alloc_frame` to `pmm_get_free_count`.
-- Each function runs whole under `pmm_lock`, so a call is one step on the state. `pmm_init` is in
-- Pmm/Boot.antt, the bitmap helpers are in Pmm/Bitmap.antt.
pub mod Bitmap
pub mod Frames
pub mod Invariant
pub mod Counts
pub mod Boot
mod Tests
use zoho_os.Prelude.{
  ℕ, zero, suc, ◌+◌, ◌-◌, ◌*◌, ◌/◌, ◌%◌, ◌^◌, ◌<◌, ◌≡◌, Bool, true, false, List, [], ◌∷◌, arith,
  ◌==◌, ltb, if◌then◌else◌, update,
}
use Bitmap.{BitWords, bitmap_set, bitmap_unset, bitmap_test}

abbrev pub page_size : ℕ
page_size = 4096

-- `MAX_FRAMES`
abbrev pub max_frames : ℕ
max_frames = 1024 * 1024

-- The static variables. `depth` is `stack_ptr + 1`, so `-1` is 0; an array is a function of the
-- index. `ref_counts` holds 32-bit words, `total_frames` a 64-bit one.
pub record Pmm : Type 0 where
  pub frame_bitmap : BitWords
  pub free_stack : ℕ → ℕ
  pub depth : ℕ
  pub ref_counts : ℕ → ℕ
  pub total_frames : ℕ

-- `free_stack[++stack_ptr] = addr`
unfoldable pub push : Pmm → ℕ → Pmm
push p addr = record p { free_stack = update p.free_stack p.depth addr; depth = suc p.depth }

-- `pmm_alloc_frame` by the value of `stack_ptr + 1`.
alloc_at : Pmm → ℕ → ℕ × Pmm
alloc_at p zero = (0, p)
alloc_at p (suc top) =
    let addr = p.free_stack top in
    let f = addr / page_size in
    (
      addr,
      record p {
        depth = top;
        frame_bitmap = bitmap_set p.frame_bitmap f;
        ref_counts = update p.ref_counts f 1;
      },
    )

-- The address is 0 where C returns NULL.
unfoldable pub pmm_alloc_frame : Pmm → ℕ × Pmm
unfolding alloc_at
pmm_alloc_frame p = alloc_at p p.depth

-- What happens to a frame whose count has reached 0.
give_back : Pmm → ℕ → ℕ → Pmm
unfolding push
give_back p f addr =
    if bitmap_test p.frame_bitmap f
    then push (record p { frame_bitmap = bitmap_unset p.frame_bitmap f }) addr
    else p

unfoldable pub pmm_free_frame : Pmm → ℕ → Pmm
unfolding give_back
pmm_free_frame p addr =
    let f = addr / page_size in
    let count = p.ref_counts f in
    let p' = record p { ref_counts = update p.ref_counts f (count - 1) } in
    if ltb f max_frames
    then (if ltb 0 count then (if (count - 1) == 0 then give_back p' f addr else p') else p)
    else p

unfoldable pub pmm_ref_inc : Pmm → ℕ → Pmm
pmm_ref_inc p addr =
    let f = addr / page_size in
    if ltb f max_frames
    then record p { ref_counts = update p.ref_counts f ((p.ref_counts f + 1) % 2 ^ 32) }
    else p

unfoldable pub pmm_get_ref : Pmm → ℕ → ℕ
pmm_get_ref p addr = let f = addr / page_size in if ltb f max_frames then p.ref_counts f else 0

unfoldable pub pmm_get_free_count : Pmm → ℕ
pmm_get_free_count p = p.depth

unfoldable pub pmm_get_total_frames : Pmm → ℕ
pmm_get_total_frames p = p.total_frames

-- The calls that the rest of the kernel makes, in the order in which they take the lock.
pub data Call : Type 0 where
  alloc_frame : Call
  free_frame ref_inc : ℕ → Call

unfoldable pub step : Pmm → Call → Pmm
step p alloc_frame = (pmm_alloc_frame p).1
step p (free_frame addr) = pmm_free_frame p addr
step p (ref_inc addr) = pmm_ref_inc p addr

unfoldable pub run : Pmm → List Call → Pmm
run p [] = p
run p (c ∷ cs) = run (step p c) cs
