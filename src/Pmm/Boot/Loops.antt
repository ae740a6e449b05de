-- ===== src/Pmm/Boot/Loops.antt =====
-- src/kernel/pmm.c: what the address loops of `pmm_init` keep, and when they end.
use zoho_os.Prelude.{
  ℕ, zero, suc, ◌+◌, ◌*◌, ◌/◌, ◌%◌, ◌^◌, ◌≤◌, ◌≡◌, some, arith, ltb, leb, ◌&&◌, ◌||◌, Bool, true,
  false, inl, inr, Bool-cases, not,
}
use zoho_os.Pmm.{page_size, max_frames}
use zoho_os.Pmm.Bitmap.{BitWords, bitmap_test, bitmap_test-bitmap_set, bitmap_test-bitmap_unset}
use zoho_os.Pmm.Boot.{for_pages, word64, Scan, mark_available, reserve}

-- The last page of the address space is not touched, so that no loop wraps.
abbrev pub Fits : ℕ → Type 0
Fits end = end + page_size ≤ 2 ^ 64

-- Is `f` among the frames that a loop from `addr` to `end` visits?
abbrev pub visited : ℕ → ℕ → ℕ → Bool
visited addr end f = leb (addr / page_size) f && ltb (f * page_size + addr % page_size) end

-- One round of an address loop, and its end.
module _ {S : Type 0} (body : ℕ → S → S) (n addr end : ℕ) (s : S) where
  round :
      {t : S}
      → Fits end
      → ltb addr end ≡ true
      → for_pages body n (addr + page_size) end (body addr s) ≡ some t
      → for_pages body (suc n) addr end s ≡ some t
  unfolding for_pages
  round fits go e = rw (go, for_pages) (rw (next) e)
    where
      next : word64 (addr + page_size) ≡ addr + page_size
      next = ground arith

  over : ltb addr end ≡ false → for_pages body (suc n) addr end s ≡ some s
  unfolding for_pages
  over stop = rw (stop, for_pages)

-- With fuel for every page the reserving loop ends, and sets the bits of the visited frames.
pub reserve_loop :
    (n addr end : ℕ) (w : BitWords)
    → Fits end
    → end ≤ addr + n * page_size
    → (t : BitWords) × (for_pages reserve (suc n) addr end w ≡ some t)
      × ((f : ℕ) → bitmap_test t f ≡ (bitmap_test w f || visited addr end f))
unfolding reserve
reserve_loop zero addr end w fits h =
    (w, over reserve zero addr end w (ground arith), λ f. ground arith)
reserve_loop (suc n) addr end w fits h = elim (Bool-cases (ltb addr end)) [
  | inl go ↦
      let (t, e, sets) =
        reserve_loop n (addr + page_size) end (reserve addr w) fits (omega arith) in
      (
        t,
        round reserve (suc n) addr end w fits go e,
        λ f. ground (arith, sets f, bitmap_test-bitmap_set w (addr / page_size) f),
      )
  | inr stop ↦ (w, over reserve (suc n) addr end w stop, λ f. ground arith)
]

-- Every clear bit belongs to a frame that ends at or below `max_addr`.
abbrev pub Covered : Scan → Type 0
Covered s = (f : ℕ) → bitmap_test s.words f ≡ false → (f + 1) * page_size ≤ s.max_addr

mark_available-Covered : (addr : ℕ) (s : Scan) → Covered s → Covered (mark_available addr s)
unfolding mark_available
mark_available-Covered addr s c f =
    ground (arith, c f, bitmap_test-bitmap_unset s.words (addr / page_size) f)

-- What a part of the scan makes of `s`: it clears the bits of the managed frames that `marked`
-- tells, and `max_addr` stays above every clear frame.
pub record Scanned (s : Scan) (marked : ℕ → Bool) (t : Scan) : Type 0 where
  pub clears :
      (f : ℕ)
      → bitmap_test t.words f ≡ (bitmap_test s.words f && not (ltb f max_frames && marked f))
  pub covered : Covered s → Covered t

pub mark_loop :
    (n addr end : ℕ) (s : Scan)
    → Fits end
    → end ≤ addr + n * page_size
    → (t : Scan) × (for_pages mark_available (suc n) addr end s ≡ some t)
      × Scanned s (visited addr end) t
unfolding mark_available
mark_loop zero addr end s fits h = (
  s,
  over mark_available zero addr end s (ground arith),
  record { clears = λ f. ground arith; covered = λ c. c },
)
mark_loop (suc n) addr end s fits h = elim (Bool-cases (ltb addr end)) [
  | inl go ↦
      let (t, e, r) =
        mark_loop n (addr + page_size) end (mark_available addr s) fits (omega arith) in
      (
        t,
        round mark_available (suc n) addr end s fits go e,
        record {
          clears = λ f.
              ground (arith, r.clears f, bitmap_test-bitmap_unset s.words (addr / page_size) f);
          covered = λ c. r.covered (mark_available-Covered addr s c);
        },
      )
  | inr stop ↦ (
    s,
    over mark_available (suc n) addr end s stop,
    record { clears = λ f. ground arith; covered = λ c. c },
  )
]
