-- ===== src/Pmm/Boot/Total.antt =====
-- src/kernel/pmm.c: `pmm_init` ends, and which frames are free after it.
use zoho_os.Prelude.{
  ℕ, suc, ◌+◌, ◌*◌, ◌%◌, ◌^◌, ◌≤◌, ◌≡◌, refl, Option, some, Bool, true, false, not, ◌&&◌, ◌||◌,
  List, [], ◌∷◌, arith, ◌==◌, ltb, inl, inr, ap, Bool-cases,
}
use zoho_os.Bits.{bit-zero, bit-complement}
use zoho_os.Pmm.{page_size, max_frames, Pmm}
use zoho_os.Pmm.Bitmap.{BitWords, bitmap_test, bitmap_test-bit}
use zoho_os.Pmm.Invariant.{is_free, IsValid, IsAligned}
use zoho_os.Pmm.Boot.{
  MmapEntry, Tag, mmap, other_tag, BootInfo, word64, Scan, mark_entry, mark_entries, mark_tags,
  all_ones, empty_pmm, max_frame, collect, pmm_init,
}
use zoho_os.Pmm.Boot.Loops.{Fits, visited, reserve_loop, Covered, Scanned, mark_loop}
use zoho_os.Pmm.Boot.Valid.{collect-Collected}

-- The frames that the firmware reports as usable.
abbrev pub entry_marks : MmapEntry → ℕ → Bool
entry_marks e f = e.kind == 1 && visited e.addr (e.addr + e.len) f

abbrev pub entries_mark : List MmapEntry → ℕ → Bool
entries_mark [] f = false
entries_mark (e ∷ es) f = entry_marks e f || entries_mark es f

abbrev pub usable : List Tag → ℕ → Bool
usable [] f = false
usable (mmap es ∷ ts) f = entries_mark es f || usable ts f
usable (other_tag ∷ ts) f = usable ts f

-- No range that a loop walks ends in the last page of the address space.
abbrev pub EntriesFit : List MmapEntry → Type 0
EntriesFit [] = Unit {0}
EntriesFit (e ∷ es) = Fits (e.addr + e.len) × EntriesFit es

abbrev pub TagsFit : List Tag → Type 0
TagsFit [] = Unit {0}
TagsFit (mmap es ∷ ts) = EntriesFit es × TagsFit ts
TagsFit (other_tag ∷ ts) = TagsFit ts

pub record BootFits (b : BootInfo) : Type 0 where
  pub tags_fit : TagsFit b.tags
  pub kernel_fits : Fits b.kernel_end
  pub info_fits : Fits (b.mb_info + b.total_size)

abbrev ScansTo : Scan → (ℕ → Bool) → Option Scan → Type 0
ScansTo s marked r = (t : Scan) × (r ≡ some t) × Scanned s marked t

scan_nothing : (s : Scan) → Scanned s (λ f. false) s
scan_nothing s = record { clears = λ f. ground arith; covered = λ c. c }

scan_both :
    (s t u : Scan) (m n : ℕ → Bool) → Scanned s m t → Scanned t n u → Scanned s (λ f. m f || n f) u
scan_both s t u m n x y = record {
  clears = λ f. ground (arith, x.clears f, y.clears f);
  covered = λ c. y.covered (x.covered c);
}

pub all_ones_set : (f : ℕ) → bitmap_test all_ones f ≡ true
all_ones_set f = ground (
  arith,
  bitmap_test-bit all_ones f,
  bit-complement 32 0 (f % 32) (omega arith) (omega arith),
  bit-zero (f % 32),
)

module _ (n : ℕ) (enough : 2 ^ 64 ≤ n * page_size) where
  mark_entry_total :
      (e : MmapEntry) (s : Scan)
      → Fits (e.addr + e.len)
      → ScansTo s (entry_marks e) (mark_entry (suc n) e s)
  unfolding mark_entry
  mark_entry_total e s fits = elim (Bool-cases (e.kind == 1)) [
    | inl avail ↦
        let (t, p, x) = mark_loop n e.addr (e.addr + e.len) s fits (omega arith) in
        (
          t,
          rw (avail, mark_entry) (rw whole p),
          record { clears = λ f. ground (arith, x.clears f); covered = x.covered },
        )
    | inr other ↦
        (s, rw (other, mark_entry), record { clears = λ f. ground arith; covered = λ c. c })
  ]
    where
      whole : word64 (e.addr + e.len) ≡ e.addr + e.len
      whole = omega arith

  mark_entries_total :
      (es : List MmapEntry) (s : Scan)
      → EntriesFit es
      → ScansTo s (entries_mark es) (mark_entries (suc n) es s)
  unfolding mark_entries
  mark_entries_total [] s fits = (s, refl, scan_nothing s)
  mark_entries_total (e ∷ es) s fits =
      let (t, p, x) = mark_entry_total e s fits.0 in
      let (u, q, y) = mark_entries_total es t fits.1 in
      (u, rw p q, scan_both s t u (entry_marks e) (entries_mark es) x y)

  mark_tags_total :
      (ts : List Tag) (s : Scan) → TagsFit ts → ScansTo s (usable ts) (mark_tags (suc n) ts s)
  unfolding mark_tags
  mark_tags_total [] s fits = (s, refl, scan_nothing s)
  mark_tags_total (mmap es ∷ ts) s fits =
      let (t, p, x) = mark_entries_total es s fits.0 in
      let (u, q, y) = mark_tags_total ts t fits.1 in
      (u, rw p q, scan_both s t u (entries_mark es) (usable ts) x y)
  mark_tags_total (other_tag ∷ ts) s fits = mark_tags_total ts s fits

-- The frames that are free once the system has booted: usable memory in the first 4 GiB that holds
-- neither the kernel nor the boot information.
abbrev pub free_after_boot : BootInfo → ℕ → Bool
free_after_boot b f =
    ltb f max_frames
    && usable b.tags f
    && not (visited 0 b.kernel_end f)
    && not (visited b.mb_info (b.mb_info + b.total_size) f)

start : Scan
start = record { words = all_ones; max_addr = 0 }

stack_built :
    (b : BootInfo) (s : Scan) (w w' : BitWords)
    → Scanned start (usable b.tags) s
    → ((f : ℕ) → bitmap_test w f ≡ (bitmap_test s.words f || visited 0 b.kernel_end f))
    → ((f : ℕ)
        → bitmap_test w' f ≡ (bitmap_test w f || visited b.mb_info (b.mb_info + b.total_size) f))
    → let p = collect (max_frame s) 0 (empty_pmm w') in
      IsValid p × IsAligned p × ((f : ℕ) → is_free p f ≡ free_after_boot b f)
unfolding start max_frame empty_pmm
stack_built b s w w' x hw hw' =
    let r = collect-Collected (max_frame s) 0 (empty_pmm w') tt tt (λ g h. ground arith) in
    let bits : (f : ℕ)
        → bitmap_test (collect (max_frame s) 0 (empty_pmm w')).frame_bitmap f ≡ bitmap_test w' f =
      λ f. ap (λ (v : BitWords). bitmap_test v f) r.same_bits in
    let low : Covered s = x.covered (λ f h. absurd (ground (arith, all_ones_set f, h))) in
    (
      record {
        distinct = r.distinct;
        agree = λ f. ground (arith, r.holds f, bits f, hw f, hw' f, low f);
      },
      r.aligned,
      λ f. ground (arith, bits f, hw f, hw' f, x.clears f, all_ones_set f),
    )

-- `pmm_init` ends, with fuel for every page of the address space. It leaves a stack without
-- duplicates that agrees with the bitmap, holds addresses of whole frames only, and makes free
-- exactly the frames of usable memory below 4 GiB that neither reserving loop visits.
pub pmm_init_total :
    (n : ℕ) (b : BootInfo)
    → 2 ^ 64 ≤ n * page_size
    → BootFits b
    → (p : Pmm) × (pmm_init (suc n) b ≡ some p)
      × IsValid p
      × IsAligned p
      × ((f : ℕ) → is_free p f ≡ free_after_boot b f)
unfolding pmm_init start
pmm_init_total n b enough fits =
    let (s, p, x) = mark_tags_total n enough b.tags start fits.tags_fit in
    let (w, q, hw) = reserve_loop n 0 b.kernel_end s.words fits.kernel_fits (omega arith) in
    let (w', r, hw') =
      reserve_loop n b.mb_info (b.mb_info + b.total_size) w fits.info_fits (omega arith) in
    let (v, a, spec) = stack_built b s w w' x hw hw' in
    (collect (max_frame s) 0 (empty_pmm w'), rw p (rw q (rw whole (rw r))), v, a, spec)
  where
    whole : word64 (b.mb_info + b.total_size) ≡ b.mb_info + b.total_size
    whole = omega arith
