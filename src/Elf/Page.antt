-- ===== src/Elf/Page.antt =====
-- src/kernel/elf.c: what the frame of a page of a segment holds.
use zoho_os.Prelude.{
  ℕ, zero, suc, ◌+◌, ◌-◌, ◌*◌, ◌%◌, ◌^◌, ◌≤◌, ◌<◌, ◌≡◌, ◌⊎◌, inl, inr, refl, sym, ap, ◌∙◌, true,
  false, ◌&&◌, Bool-cases, arith, ◌==◌, ltb, leb, if◌then◌else◌,
}
use zoho_os.Vmm.{word64}
use zoho_os.Bytes.{Memory, within, copied, memset, memcpy}
use zoho_os.Bytes.Copy.{memcpy_copies}
use zoho_os.Bytes.Fill.{memset_fills}
use zoho_os.Elf.{load64, phdr_offset, phdr_filesz, copy_bytes, fill_page}

-- Two ranges of addresses have no address in common.
abbrev pub Apart : ℕ → ℕ → ℕ → ℕ → Type 0
Apart a n b k = (a + n ≤ b) ⊎ (b + k ≤ a)

-- What byte `x` of a segment's pages is: they begin at a page, and the file at `vaddr`.
abbrev pub segment_byte : Memory → ℕ → ℕ → ℕ → ℕ
segment_byte file filesz vaddr x =
    if leb (vaddr % 4096) x && ltb (x - vaddr % 4096) filesz then file (x - vaddr % 4096) else 0

-- A part of the file, apart from a frame, is copied into the frame.
part_copied :
    (elf_data file_end frame d s n a : ℕ) (m : Memory)
    → Apart elf_data file_end frame 4096
    → elf_data ≤ s
    → s + n ≤ elf_data + file_end
    → frame ≤ d
    → d + n ≤ frame + 4096
    → memcpy d s n m a ≡ copied d s n m a
part_copied elf_data file_end frame d s n a m (inl before) l r l' r' =
    memcpy_copies d s n m a (inr (omega arith))
part_copied elf_data file_end frame d s n a m (inr behind) l r l' r' =
    memcpy_copies d s n m a (inl (omega arith))

-- The copy of one page, on the numbers that `copy_bytes` computes.
one_copy :
    (elf_data file_end frame to from size a : ℕ) (m : Memory)
    → Apart elf_data file_end frame 4096
    → to + size ≤ 4096
    → (if ltb from file_end
          then memcpy
              (frame + to)
              (elf_data + from)
              (if ltb size (file_end - from) then size else file_end - from)
              m
          else m)
        a
      ≡ (if within (frame + to) size a && ltb (from + (a - (frame + to))) file_end
          then m (elf_data + from + (a - (frame + to)))
          else m a)
one_copy elf_data file_end frame to from size a m apart room =
    elim (Bool-cases (ltb from file_end)) [
      | inr t ↦ rw t (ground (arith, t))
      | inl t ↦
          let n = if ltb size (file_end - from) then size else file_end - from in
          let short : (n ≤ size) × (n ≤ file_end - from) = ground arith in
          let some_left : from < file_end = ground (arith, t) in
          rw t (
            part_copied elf_data file_end frame (frame + to) (elf_data + from) n a m apart
              (omega arith) (omega (arith, short.1, some_left)) (omega arith)
              (omega (arith, short.0, room))
            ∙ ground arith)
    ]

cleared_byte :
    (frame a : ℕ) (m : Memory) → memset frame 0 4096 m a ≡ (if within frame 4096 a then 0 else m a)
cleared_byte frame a m = memset_fills frame 0 4096 a m

cleared_file :
    (elf_data file_end frame k : ℕ) (m : Memory)
    → Apart elf_data file_end frame 4096
    → k < file_end
    → memset frame 0 4096 m (elf_data + k) ≡ m (elf_data + k)
cleared_file elf_data file_end frame k m (inl before) h =
    cleared_byte frame (elf_data + k) m ∙ ground arith
cleared_file elf_data file_end frame k m (inr behind) h =
    cleared_byte frame (elf_data + k) m ∙ ground arith

-- What the copy leaves in a cleared frame, for a place `x` of the segment's pages.
copied_page :
    (elf_data offset filesz frame to from size start x a : ℕ) (m : Memory)
    → Apart elf_data (offset + filesz) frame 4096
    → to + size ≡ 4096
    → (frame ≤ a → a < frame + 4096 → leb to (a - frame) ≡ leb start x)
    → (frame ≤ a → a < frame + 4096 → start ≤ x → from + (a - (frame + to)) ≡ offset + (x - start))
    → (if ltb from (offset + filesz)
          then memcpy
              (frame + to)
              (elf_data + from)
              (if ltb size (offset + filesz - from) then size else offset + filesz - from)
              (memset frame 0 4096 m)
          else memset frame 0 4096 m)
        a
      ≡ (if within frame 4096 a
          then if leb start x && ltb (x - start) filesz
            then m (elf_data + (offset + (x - start)))
            else 0
          else m a)
copied_page elf_data offset filesz frame to from size start x a m apart room inside place =
    let clear = memset frame 0 4096 m in
    let here = cleared_byte frame a m in
    one_copy elf_data (offset + filesz) frame to from size a clear apart (omega (arith, room))
    ∙ elim (Bool-cases (within frame 4096 a)) [
      | inr out ↦
          let outside : within (frame + to) size a ≡ false = ground (arith, out, room) in
          rw (outside, out) (here ∙ ap (λ b. if b then 0 else m a) out)
      | inl in' ↦
          let l : frame ≤ a = ground (arith, in') in
          let u : a < frame + 4096 = ground (arith, in') in
          let empty = here ∙ ap (λ b. if b then 0 else m a) in' in
          elim (Bool-cases (leb start x)) [
            | inr low ↦
                let behind = inside l u ∙ low in
                let outside : within (frame + to) size a ≡ false = ground (arith, behind) in
                rw (outside, in', low) empty
            | inl high ↦
                let behind = inside l u ∙ high in
                let within_part : within (frame + to) size a ≡ true =
                  ground (arith, behind, u, l, room) in
                let e = place l u (ground (arith, high)) in
                let same : ltb (from + (a - (frame + to))) (offset + filesz)
                    ≡ ltb (x - start) filesz =
                  ap (λ y. ltb y (offset + filesz)) e ∙ ground arith in
                elim (Bool-cases (ltb (x - start) filesz)) [
                  | inl t ↦
                      let test = same ∙ t in
                      rw (within_part, test, in', high, t)
                        (ap clear (omega (arith, e))
                          ∙ cleared_file elf_data (offset + filesz) frame (offset + (x - start)) m
                              apart (ground (arith, t)))
                  | inr t ↦ let test = same ∙ t in rw (within_part, test, in', high, t) empty
                ]
          ]
    ]

-- The copy, on its three numbers.
abbrev copy_at : ℕ → ℕ → ℕ → ℕ → ℕ → ℕ → ℕ → Memory → ℕ
copy_at elf_data end frame to from size a m =
    (if ltb from end
        then memcpy (frame + to) (elf_data + from)
            (if ltb size (end - from) then size else end - from) m
        else m)
      a

copy_bytes_page :
    (elf_data offset filesz vaddr frame p a : ℕ) (m : Memory)
    → Apart elf_data (offset + filesz) frame 4096
    → offset + p * 4096 < 2 ^ 64
    → copy_bytes elf_data offset (offset + filesz) vaddr frame p (memset frame 0 4096 m) a ≡ (
        if within frame 4096 a
        then segment_byte (λ k. m (elf_data + (offset + k))) filesz vaddr (p * 4096 + (a - frame))
        else m a)
unfolding copy_bytes
copy_bytes_page elf_data offset filesz vaddr frame zero a m apart small =
    copied_page elf_data offset filesz frame (vaddr % 4096) offset (4096 - vaddr % 4096)
      (vaddr % 4096) (0 * 4096 + (a - frame)) a m apart (omega arith)
      (λ l u. ap (leb (vaddr % 4096)) (omega arith)) (λ l u h. omega (arith, l, u, h))
copy_bytes_page elf_data offset filesz vaddr frame (suc p) a m apart small =
    let end = offset + filesz in
    let clear = memset frame 0 4096 m in
    let from = word64 (offset + suc p * 4096 + 2 ^ 64 - vaddr % 4096) in
    let later : (suc p == 0) ≡ false = ground arith in
    let e : from ≡ offset + (suc p * 4096 - vaddr % 4096) = omega (arith, small) in
    ap
      (λ b.
        copy_at elf_data end frame (if b then vaddr % 4096 else 0) (if b then offset else from)
          (if b then 4096 - vaddr % 4096 else 4096) a clear)
      later
    ∙ copied_page elf_data offset filesz frame 0 from 4096 (vaddr % 4096)
        (suc p * 4096 + (a - frame)) a m apart (omega arith) (λ l u. ground arith)
        (λ l u h. omega (arith, l, u, h, e))

-- A number in memory, where its bytes are the same.
load64_same :
    (m m' : Memory) (a : ℕ) → ((k : ℕ) → k < 8 → m (a + k) ≡ m' (a + k)) → load64 m a ≡ load64 m' a
load64_same m m' a h =
    let at' = λ (b k : ℕ) (e : a + k ≡ b) (l : k < 8). ap m (sym e) ∙ h k l ∙ ap m' e in
    let b₀ = at' a 0 (omega arith) (omega arith) in
    let b₁ = at' (a + 1) 1 refl (omega arith) in
    let b₂ = at' (a + 2) 2 refl (omega arith) in
    let b₃ = at' (a + 2 + 1) 3 (omega arith) (omega arith) in
    let b₄ = at' (a + 4) 4 refl (omega arith) in
    let b₅ = at' (a + 4 + 1) 5 (omega arith) (omega arith) in
    let b₆ = at' (a + 4 + 2) 6 (omega arith) (omega arith) in
    let b₇ = at' (a + 4 + 2 + 1) 7 (omega arith) (omega arith) in
    λ i.
      b₀ i
      + b₁ i * 2 ^ 8
      + (b₂ i + b₃ i * 2 ^ 8) * 2 ^ 16
      + (b₄ i + b₅ i * 2 ^ 8 + (b₆ i + b₇ i * 2 ^ 8) * 2 ^ 16) * 2 ^ 32

-- The program header is not in the frame that is cleared.
header_kept :
    (phdr frame field : ℕ) (m : Memory)
    → Apart phdr 56 frame 4096
    → field + 8 ≤ 56
    → load64 (memset frame 0 4096 m) (phdr + field) ≡ load64 m (phdr + field)
header_kept phdr frame field m apart h =
    load64_same (memset frame 0 4096 m) m (phdr + field) (λ k l.
      ap (memset frame 0 4096 m) (omega arith)
      ∙ cleared_file phdr 56 frame (field + k) m apart (omega arith)
      ∙ ap m (omega arith))

-- The frame of page `p` of a segment holds the bytes of that page: those of the file where the segment has
-- them, and 0 elsewhere; no byte outside the frame changes. The file and the header are not in the frame.
pub fill_page-segment_byte :
    (elf_data phdr vaddr frame p a : ℕ) (m : Memory)
    → Apart elf_data (phdr_offset m phdr + phdr_filesz m phdr) frame 4096
    → Apart phdr 56 frame 4096
    → phdr_offset m phdr + phdr_filesz m phdr < 2 ^ 64
    → phdr_offset m phdr + p * 4096 < 2 ^ 64
    → fill_page elf_data phdr vaddr frame p m a ≡ (
        if within frame 4096 a
        then segment_byte
            (λ k. m (elf_data + (phdr_offset m phdr + k)))
            (phdr_filesz m phdr)
            vaddr
            (p * 4096 + (a - frame))
        else m a)
unfolding fill_page
fill_page-segment_byte elf_data phdr vaddr frame p a m apart header small no_wrap =
    let clear = memset frame 0 4096 m in
    let offset = header_kept phdr frame 8 m header (omega arith) in
    let filesz = header_kept phdr frame 32 m header (omega arith) in
    (λ i. copy_bytes elf_data (offset i) (word64 (offset i + filesz i)) vaddr frame p clear a)
    ∙ ap (λ e. copy_bytes elf_data (phdr_offset m phdr) e vaddr frame p clear a)
        {x = word64 (phdr_offset m phdr + phdr_filesz m phdr)}
        {y = phdr_offset m phdr + phdr_filesz m phdr} (omega (arith, small))
    ∙ copy_bytes_page elf_data (phdr_offset m phdr) (phdr_filesz m phdr) vaddr frame p a m apart
        no_wrap
