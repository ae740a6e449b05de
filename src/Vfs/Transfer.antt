-- ===== src/Vfs/Transfer.antt =====
-- src/kernel/vfs.c: what the loops of `vfs_read` and `vfs_write` transfer.
use zoho_os.Prelude.{
  false, ℕ, zero, suc, ◌+◌, ◌-◌, ◌*◌, ◌/◌, ◌%◌, ◌^◌, ◌≤◌, ◌<◌, ◌≡◌, min, refl, ap, ◌∙◌, true, ◌&&◌,
  some, arith, ◌==◌, leb, if◌then◌else◌, Bool-cases, inl, inr, dec_lt, ℕ_discrete,
}
use zoho_os.Bytes.{Memory, within}
use zoho_os.Tar.{Disk, Archive, word32, names_same, cached_write_sector}
use zoho_os.Tar.Cache.{IsCoherent, write-IsCoherent}
use zoho_os.Vfs.{put_bytes, read_round, read_loop, write_round, write_loop}
use mathlib.Core.Path.{fun_ext}

-- Byte `k` of the file whose first sector is `start`.
abbrev pub file_byte : Disk → ℕ → ℕ → ℕ
file_byte disk start k = disk (start + k / 512) (k % 512)

-- The positions up to `end` of a file at `start` have sectors that exist.
abbrev pub FileFits : ℕ → ℕ → Type 0
FileFits start end = (end < 2 ^ 32) × (start + end / 512 < 2 ^ 32)

-- Where byte `offset + i` is, if it lies in the sector of byte `offset`.
same_sector :
    (start offset i : ℕ)
    → FileFits start (offset + i)
    → offset % 512 + i < 512
    → (word32 (start + offset / 512) ≡ start + (offset + i) / 512)
      × (offset % 512 + i ≡ (offset + i) % 512)
same_sector start offset i fits h = omega arith

byte_here :
    (disk : Disk) (start offset i : ℕ)
    → FileFits start (offset + i)
    → offset % 512 + i < 512
    → disk (word32 (start + offset / 512)) (offset % 512 + i) ≡ file_byte disk start (offset + i)
byte_here disk start offset i fits h =
    let (lba, b) = same_sector start offset i fits h in λ j. disk (lba j) (b j)

read_round_puts :
    (disk : Disk) (start offset size at' : ℕ) (m : Memory) (a : ℕ)
    → FileFits start (offset + size)
    → size ≤ 512 - offset % 512
    → read_round disk start offset size at' m a
      ≡ put_bytes at' size (λ i. file_byte disk start (offset + i)) m a
unfolding read_round
read_round_puts disk start offset size at' m a fits h = elim (Bool-cases (within at' size a)) [
  | inr outside ↦ ground (arith, outside)
  | inl inside ↦
      let e =
        byte_here disk start offset (a - at') (ground (arith, inside)) (ground (arith, inside)) in
      elim (Bool-cases ((offset % 512) == 0 && size == 512)) [
        | inl whole ↦ ground (
          arith,
          inside,
          whole,
          ap (disk (word32 (start + offset / 512))) (none_skipped whole),
          e,
        )
        | inr part ↦ ground (arith, inside, part, e)
      ]
]
  where
    none_skipped : ((offset % 512) == 0 && size == 512) ≡ true → offset % 512 + (a - at') ≡ a - at'
    none_skipped whole = ground (arith, whole)

puts_twice :
    (p q x y : ℕ) (f : ℕ → ℕ) (m m₁ : Memory) (a : ℕ)
    → q ≡ p + x
    → m₁ a ≡ put_bytes p x f m a
    → put_bytes q y (λ i. f (x + i)) m₁ a ≡ put_bytes p (x + y) f m a
puts_twice p q x y f m m₁ a e h = elim (Bool-cases (within q y a)) [
  | inl later ↦ ground (arith, later, h, ap f (back later))
  | inr now ↦ ground (arith, now, h)
]
  where
    back : within q y a ≡ true → x + (a - q) ≡ a - p
    back later = ground (arith, later)

-- The size of a round, and what is left: neither the position nor the count wraps.
abbrev round_size : ℕ → ℕ → ℕ
round_size offset left = min (512 - offset % 512) left

read_loop_more :
    (fuel : ℕ) (disk : Disk) (start offset count done buffer : ℕ) (m : Memory)
    → done < count
    → count < 2 ^ 32
    → offset + (count - done) < 2 ^ 32
    → let size = round_size offset (count - done) in
      read_loop (suc fuel) disk start offset count done buffer m
      ≡ read_loop fuel disk start
          (offset + size)
          count
          (done + size)
          buffer
          (read_round disk start offset size (buffer + done) m)
unfolding read_loop
read_loop_more fuel disk start offset count done buffer m go small fits =
    let size = round_size offset (count - done) in
    let o : word32 (offset + size) ≡ offset + size = omega arith in
    let d : word32 (done + size) ≡ done + size = omega arith in ground (arith, go, o, d)

-- A round, and then the rest of the transfer.
puts_rest :
    (p done size count offset : ℕ) (f : ℕ → ℕ) (m m₁ : Memory) (a : ℕ)
    → done + size ≤ count
    → m₁ a ≡ put_bytes (p + done) size (λ i. f (offset + i)) m a
    → put_bytes (p + (done + size)) (count - (done + size)) (λ i. f (offset + size + i)) m₁ a
      ≡ put_bytes (p + done) (count - done) (λ i. f (offset + i)) m a
puts_rest p done size count offset f m m₁ a le e =
    ap (λ g. put_bytes (p + (done + size)) (count - (done + size)) g m₁ a) (fun_ext later)
    ∙ puts_twice (p + done) (p + (done + size)) size (count - (done + size)) (λ i. f (offset + i)) m
        m₁ a (omega arith) e
    ∙ ap (λ n. put_bytes (p + done) n (λ i. f (offset + i)) m a) (omega arith)
  where
    later : (i : ℕ) → f (offset + size + i) ≡ f (offset + (size + i))
    later i = ap f (omega arith)

-- The read loop ends and puts the bytes of the file into the buffer.
pub read_loop_total :
    (fuel : ℕ) (disk : Disk) (start offset count done buffer : ℕ) (m : Memory)
    → count - done < fuel
    → done ≤ count
    → count < 2 ^ 32
    → FileFits start (offset + (count - done))
    → (m' : Memory) × (read_loop fuel disk start offset count done buffer m ≡ some m')
      × ((a : ℕ)
          → m' a
            ≡ put_bytes (buffer + done) (count - done) (λ i. file_byte disk start (offset + i)) m a)
unfolding read_loop
read_loop_total zero disk start offset count done buffer m h le small fits = absurd (omega arith)
read_loop_total (suc fuel) disk start offset count done buffer m h le small fits =
    elim (dec_lt done count) [
      | no full ↦ (m, ground (arith, full), λ a. ground (arith, full))
      | yes go ↦
          let size = round_size offset (count - done) in
          let m₁ = read_round disk start offset size (buffer + done) m in
          let (m', e, all) =
            read_loop_total fuel disk start (offset + size) count (done + size) buffer m₁
              (omega arith) (omega arith) small (omega arith) in
          (
            m',
            read_loop_more fuel disk start offset count done buffer m go small (omega arith) ∙ e,
            λ a.
                all a
                ∙ puts_rest buffer done size count offset (file_byte disk start) m m₁ a
                    (omega arith)
                    (read_round_puts disk start offset size (buffer + done) m a (omega arith)
                      (omega arith)),
          )
    ]

-- The disk after `n` bytes from `from` on are written to the file at `start` from byte `offset` on:
-- byte `b` of sector `lba` is the file's byte `(lba - start) * 512 + b`.
abbrev pub written : Disk → ℕ → ℕ → ℕ → ℕ → Memory → Disk
written disk start offset n from m lba b =
    let k = (lba - start) * 512 + b in
    if leb start lba && within offset n k then m (from + (k - offset)) else disk lba b

-- From its first sector on, a file sees each of the 2 ^ 28 sectors of the drive under one number.
abbrev pub IsOf : ℕ → ℕ → Type 0
IsOf start lba = (start ≤ lba) × (lba < start + 2 ^ 28)

write_round_writes :
    (start offset size from : ℕ) (m : Memory) (s : Archive) (lba b : ℕ)
    → FileFits start (offset + size)
    → size ≤ 512 - offset % 512
    → b < 512
    → IsOf start lba
    → (write_round start offset size from m s).disk lba b
      ≡ written s.disk start offset size from m lba b
unfolding write_round cached_write_sector
write_round_writes start offset size from m s lba b fits h hb own =
    elim (ℕ_discrete lba (start + offset / 512)) [
      | yes here ↦
          let l : word32 (start + offset / 512) ≡ start + offset / 512 = omega arith in
          elim (Bool-cases (within (offset % 512) size b)) [
            | inl inside ↦ ground (arith, l, here, inside, ap m (same_byte here inside))
            | inr outside ↦ ground (arith, l, here, outside, ap (λ (l : ℕ). s.disk l b) here)
          ]
      | no there ↦
          let l : word32 (start + offset / 512) ≡ start + offset / 512 = omega arith in
          let apart : names_same (start + offset / 512) lba ≡ false =
            ground (arith, there, own, fits) in
          ground (arith, l, there, apart)
    ]
  where
    same_byte :
        lba ≡ start + offset / 512
        → within (offset % 512) size b ≡ true
        → from + (b - offset % 512) ≡ from + ((lba - start) * 512 + b - offset)
    same_byte here inside = ground (arith, here, inside)

written_twice :
    (start offset x y from : ℕ) (m : Memory) (disk disk₁ : Disk) (lba b : ℕ)
    → disk₁ lba b ≡ written disk start offset x from m lba b
    → written disk₁ start (offset + x) y (from + x) m lba b
      ≡ written disk start offset (x + y) from m lba b
written_twice start offset x y from m disk disk₁ lba b e =
    let k = (lba - start) * 512 + b in
    elim (Bool-cases (leb start lba && within (offset + x) y k)) [
      | inl later ↦ ground (arith, later, e, ap m (back later))
      | inr now ↦ ground (arith, now, e)
    ]
  where
    back :
        (leb start lba && within (offset + x) y ((lba - start) * 512 + b)) ≡ true
        → from + x + ((lba - start) * 512 + b - (offset + x))
          ≡ from + ((lba - start) * 512 + b - offset)
    back later = ground (arith, later)

write_loop_more :
    (fuel start offset count done buffer : ℕ) (m : Memory) (s : Archive)
    → done < count
    → count < 2 ^ 32
    → offset + (count - done) < 2 ^ 32
    → let size = round_size offset (count - done) in
      write_loop (suc fuel) start offset count done buffer m s
      ≡ write_loop fuel start
          (offset + size)
          count
          (done + size)
          buffer
          m
          (write_round start offset size (buffer + done) m s)
unfolding write_loop
write_loop_more fuel start offset count done buffer m s go small fits =
    let size = round_size offset (count - done) in
    let o : word32 (offset + size) ≡ offset + size = omega arith in
    let d : word32 (done + size) ≡ done + size = omega arith in ground (arith, go, o, d)

-- What a write leaves: the cache agrees with the disk, and the disk, each sector by its number from the
-- file's first one on, has the bytes.
pub record Written (s t : Archive) (start offset n from : ℕ) (m : Memory) : Type 0 where
  pub coherent : IsCoherent t
  pub start_kept : t.start_lba ≡ s.start_lba
  pub bytes :
      (lba b : ℕ)
      → b < 512
      → IsOf start lba
      → t.disk lba b ≡ written s.disk start offset n from m lba b

write_round-IsCoherent :
    (start offset size from : ℕ) (m : Memory) (s : Archive)
    → IsCoherent (write_round start offset size from m s)
unfolding write_round
write_round-IsCoherent start offset size from m s = write-IsCoherent _ _ s

write_round_start :
    (start offset size from : ℕ) (m : Memory) (s : Archive)
    → (write_round start offset size from m s).start_lba ≡ s.start_lba
unfolding write_round cached_write_sector
write_round_start start offset size from m s = refl

-- The write loop ends and puts the bytes of the buffer on the disk.
pub write_loop_total :
    (fuel start offset count done buffer : ℕ) (m : Memory) (s : Archive)
    → IsCoherent s
    → count - done < fuel
    → done ≤ count
    → count < 2 ^ 32
    → FileFits start (offset + (count - done))
    → (t : Archive) × (write_loop fuel start offset count done buffer m s ≡ some t)
      × Written s t start offset (count - done) (buffer + done) m
unfolding write_loop
write_loop_total zero start offset count done buffer m s c h le small fits = absurd (omega arith)
write_loop_total (suc fuel) start offset count done buffer m s c h le small fits =
    elim (dec_lt done count) [
      | no full ↦ (
        s,
        ground (arith, full),
        record { coherent = c; start_kept = refl; bytes = λ lba b hb own. ground (arith, full) },
      )
      | yes go ↦
          let size = round_size offset (count - done) in
          let s₁ = write_round start offset size (buffer + done) m s in
          let (t, e, w) =
            write_loop_total fuel start (offset + size) count (done + size) buffer m s₁
              (write_round-IsCoherent start offset size (buffer + done) m s) (omega arith)
              (omega arith) small (omega arith) in
          (
            t,
            write_loop_more fuel start offset count done buffer m s go small (omega arith) ∙ e,
            record {
              coherent = w.coherent;
              start_kept = w.start_kept ∙ write_round_start start offset size (buffer + done) m s;
              bytes = λ lba b hb own.
                  w.bytes lba b hb own
                  ∙ ap
                      (λ f. written s₁.disk start (offset + size) (count - (done + size)) f m lba b)
                      (omega arith)
                  ∙ written_twice start offset size (count - (done + size)) (buffer + done) m s.disk
                      s₁.disk lba b
                      (write_round_writes start offset size (buffer + done) m s lba b (omega arith)
                        (omega arith) hb own)
                  ∙ ap (λ n. written s.disk start offset n (buffer + done) m lba b) (omega arith);
            },
          )
    ]
