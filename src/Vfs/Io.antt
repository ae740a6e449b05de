-- ===== src/Vfs/Io.antt =====
-- src/kernel/vfs.c: what `vfs_read` and `vfs_write` do.
use zoho_os.Prelude.{
  ℕ, ◌+◌, ◌-◌, ◌*◌, ◌/◌, ◌%◌, ◌^◌, ◌≤◌, ◌<◌, ◌≡◌, ◌≢◌, min, refl, ap, sym, ◌∙◌, subst, true, some,
  arith, dec_lt,
}
use zoho_os.Bytes.{Memory, pos}
use zoho_os.Tar.{Archive, word32}
use zoho_os.Tar.Cache.{IsCoherent}
use zoho_os.Vfs.{
  max_fds, FileDescriptor, Vfs, put_bytes, read_loop, read_count, as_int, set_offset, read_fd,
  vfs_read, write_loop, write_count, write_fd, vfs_write,
}
use zoho_os.Vfs.Transfer.{file_byte, FileFits, read_loop_total, Written, write_loop_total}

-- An open descriptor of a file whose sectors exist.
pub record IsOpen (v : Vfs) (fd : ℕ) : Type 0 where
  pub known : fd < max_fds
  pub used : (v.fd_table fd).in_use ≡ true
  pub fits : FileFits (v.fd_table fd).start_lba (v.fd_table fd).size
  pub inside : (v.fd_table fd).offset ≤ (v.fd_table fd).size

-- How many of `count` bytes are left in the file.
abbrev pub available : Vfs → ℕ → ℕ → ℕ
available v fd count = min count ((v.fd_table fd).size - (v.fd_table fd).offset)

-- Descriptor `fd` moves on by `n` bytes, and no other changes.
pub record Moved (v v' : Vfs) (fd n : ℕ) : Type 0 where
  pub offset : (v'.fd_table fd).offset ≡ (v.fd_table fd).offset + n
  pub same_size : (v'.fd_table fd).size ≡ (v.fd_table fd).size
  pub same_start : (v'.fd_table fd).start_lba ≡ (v.fd_table fd).start_lba
  pub still_used : (v'.fd_table fd).in_use ≡ true
  pub others : (k : ℕ) → k ≢ fd → v'.fd_table k ≡ v.fd_table k

set_offset-Moved :
    (fd n : ℕ) (v : Vfs)
    → IsOpen v fd
    → (v.fd_table fd).offset + n < 2 ^ 32
    → Moved v (set_offset fd (word32 ((v.fd_table fd).offset + n)) v) fd n
unfolding set_offset
set_offset-Moved fd n v o small = record {
  offset = ground arith;
  same_size = ground arith;
  same_start = ground arith;
  still_used = ground (arith, o.used);
  others = λ k ne. ground arith;
}

read_count_min : (v : Vfs) (fd count : ℕ) → read_count (v.fd_table fd) count ≡ available v fd count
unfolding read_count
read_count_min v fd count = ground arith

write_count_min :
    (v : Vfs) (fd count : ℕ)
    → IsOpen v fd
    → (v.fd_table fd).offset + count < 2 ^ 32
    → write_count (v.fd_table fd) count ≡ available v fd count
unfolding write_count
write_count_min v fd count o small = ground (arith, o.inside, o.fits)

read_fd_done :
    (fuel fd buffer count n : ℕ) (v : Vfs) (m m' : Memory)
    → IsOpen v fd
    → (v.fd_table fd).offset < (v.fd_table fd).size
    → read_count (v.fd_table fd) count ≡ n
    → read_loop fuel v.archive.disk (v.fd_table fd).start_lba (v.fd_table fd).offset n 0 buffer m
      ≡ some m'
    → read_fd fuel fd buffer count v m
      ≡ some (as_int n, set_offset fd (word32 ((v.fd_table fd).offset + n)) v, m')
unfolding read_fd
read_fd_done fuel fd buffer count n v m m' o go e r = ground (arith, o.known, o.used, go, e, r)

read_fd_at_end :
    (fuel fd buffer count : ℕ) (v : Vfs) (m : Memory)
    → IsOpen v fd
    → (v.fd_table fd).size ≤ (v.fd_table fd).offset
    → read_fd fuel fd buffer count v m ≡ some (as_int (available v fd count), v, m)
unfolding read_fd
read_fd_at_end fuel fd buffer count v m o end =
    let none_left : available v fd count ≡ 0 = omega arith in
    ground (arith, o.known, o.used, end, none_left)

from_start :
    (buffer n : ℕ) (f : ℕ → ℕ) (m : Memory) (a : ℕ)
    → put_bytes (buffer + 0) (n - 0) f m a ≡ put_bytes buffer n f m a
from_start buffer n f m a = λ i. put_bytes (add_zero buffer i) (sub_zero n i) f m a
  where
    add_zero : (x : ℕ) → x + 0 ≡ x
    add_zero x = omega arith

    sub_zero : (x : ℕ) → x - 0 ≡ x
    sub_zero x = omega arith

-- `vfs_read` of an open file, with a count below 2 ^ 32 and fuel above the count, ends with the number of bytes that were left, at most `count`, puts
-- these bytes of the file into the buffer and nothing else into memory, and moves the descriptor on.
pub vfs_read_total :
    (fuel fd buffer count : ℕ) (v : Vfs) (m : Memory)
    → IsOpen v fd
    → count < 2 ^ 32
    → count < fuel
    → (v' : Vfs) × (m' : Memory) × (vfs_read fuel (pos fd) buffer count v m
        ≡ some (as_int (available v fd count), v', m'))
      × Moved v v' fd (available v fd count)
      × (v'.archive ≡ v.archive)
      × ((a : ℕ)
          → m' a
            ≡ put_bytes buffer
                (available v fd count)
                (λ i.
                  file_byte v.archive.disk (v.fd_table fd).start_lba ((v.fd_table fd).offset + i))
                m
                a)
unfolding vfs_read read_fd
vfs_read_total fuel fd buffer count v m o small enough =
    elim (dec_lt (v.fd_table fd).offset (v.fd_table fd).size) [
      | no at_end ↦ (
        v,
        m,
        read_fd_at_end fuel fd buffer count v m o (omega arith),
        record {
          offset = omega arith;
          same_size = refl;
          same_start = refl;
          still_used = o.used;
          others = λ k ne. refl;
        },
        refl,
        λ a. ground arith,
      )
      | yes go ↦
          let n = available v fd count in
          let (m', e, all) =
            read_loop_total fuel v.archive.disk (v.fd_table fd).start_lba (v.fd_table fd).offset n 0
              buffer m (omega arith) (omega arith) (omega arith)
              (omega (arith, o.fits, o.inside)) in
          (
            set_offset fd (word32 ((v.fd_table fd).offset + n)) v,
            m',
            read_fd_done fuel fd buffer count n v m m' o go (read_count_min v fd count) e,
            set_offset-Moved fd n v o (omega (arith, o.fits, o.inside)),
            refl,
            λ a.
                all a
                ∙ from_start buffer n
                    (λ b.
                      file_byte v.archive.disk (v.fd_table fd).start_lba
                        ((v.fd_table fd).offset + b))
                    m a,
          )
    ]

write_fd_done :
    (fuel fd buffer count n : ℕ) (v : Vfs) (m : Memory) (s : Archive)
    → IsOpen v fd
    → write_count (v.fd_table fd) count ≡ n
    → write_loop fuel (v.fd_table fd).start_lba (v.fd_table fd).offset n 0 buffer m v.archive
      ≡ some s
    → write_fd fuel fd buffer count m v
      ≡ some
          (as_int n, record (set_offset fd (word32 ((v.fd_table fd).offset + n)) v) { archive = s })
unfolding write_fd
write_fd_done fuel fd buffer count n v m s o e r = ground (arith, o.known, o.used, e, r)

Written-from_start :
    (s t : Archive) (start offset n buffer : ℕ) (m : Memory)
    → Written s t start offset (n - 0) (buffer + 0) m
    → Written s t start offset n buffer m
Written-from_start s t start offset n buffer m w =
    subst (λ x. Written s t start offset x buffer m) {x = n - 0} (omega arith)
      (subst (λ x. Written s t start offset (n - 0) x m) {x = buffer + 0} (omega arith) w)

-- `vfs_write` to an open file, where the cache is coherent and the position and the count together
-- stay below 2 ^ 32, with fuel above the count, ends with the number of bytes for which there was
-- room, at most `count`, puts these bytes of the buffer into the file and changes none of the other
-- sectors among the 2 ^ 28 of the drive, keeps the cache coherent and moves the descriptor on.
pub vfs_write_total :
    (fuel fd buffer count : ℕ) (v : Vfs) (m : Memory)
    → IsOpen v fd
    → IsCoherent v.archive
    → (v.fd_table fd).offset + count < 2 ^ 32
    → count < fuel
    → (v' : Vfs) × (vfs_write fuel (pos fd) buffer count m v
        ≡ some (as_int (available v fd count), v'))
      × Moved v v' fd (available v fd count)
      × Written v.archive v'.archive
          (v.fd_table fd).start_lba
          (v.fd_table fd).offset
          (available v fd count)
          buffer
          m
unfolding vfs_write
vfs_write_total fuel fd buffer count v m o c small enough =
    let n = available v fd count in
    let (s, e, w) =
      write_loop_total fuel (v.fd_table fd).start_lba (v.fd_table fd).offset n 0 buffer m v.archive
        c (omega arith) (omega arith) (omega arith) (omega (arith, o.fits, o.inside)) in
    let moved = set_offset-Moved fd n v o (omega (arith, o.fits, o.inside)) in
    (
      record (set_offset fd (word32 ((v.fd_table fd).offset + n)) v) { archive = s },
      write_fd_done fuel fd buffer count n v m s o (write_count_min v fd count o small) e,
      record {
        offset = moved.offset;
        same_size = moved.same_size;
        same_start = moved.same_start;
        still_used = moved.still_used;
        others = moved.others;
      },
      Written-from_start v.archive s (v.fd_table fd).start_lba (v.fd_table fd).offset n buffer m w,
    )

Written-byte :
    (s t : Archive) (start offset n buffer i : ℕ) (m : Memory)
    → Written s t start offset n buffer m
    → i < n
    → offset + n < 2 ^ 32
    → file_byte t.disk start (offset + i) ≡ m (buffer + i)
Written-byte s t start offset n buffer i m w h small =
    w.bytes (start + (offset + i) / 512) ((offset + i) % 512) (omega arith)
      (omega arith, omega (arith, h, small))
    ∙ ground (arith, h, ap m back)
  where
    back :
        buffer + ((start + (offset + i) / 512 - start) * 512 + (offset + i) % 512 - offset)
        ≡ buffer + i
    back = omega arith

read_byte :
    (buffer n i : ℕ) (f : ℕ → ℕ) (m : Memory) → i < n → put_bytes buffer n f m (buffer + i) ≡ f i
read_byte buffer n i f m h = ground (arith, h, ap f here)
  where
    here : buffer + i - buffer ≡ i
    here = omega arith

other-IsOpen : (v v' : Vfs) (fd n k : ℕ) → Moved v v' fd n → k ≢ fd → IsOpen v k → IsOpen v' k
other-IsOpen v v' fd n k moved ne o =
    let e = moved.others k ne in
    record { known = o.known; used = rw e o.used; fits = rw e o.fits; inside = rw e o.inside }

-- What one descriptor writes, another descriptor at the same place of the same file reads, if the
-- position and the count stay below 2 ^ 32, the cache is coherent and the fuel is above the count.
pub vfs_read-vfs_write :
    (fuel fd other buffer target count : ℕ) (v : Vfs) (m m₂ : Memory)
    → IsOpen v fd
    → IsOpen v other
    → other ≢ fd
    → v.fd_table other ≡ v.fd_table fd
    → IsCoherent v.archive
    → (v.fd_table fd).offset + count < 2 ^ 32
    → count < fuel
    → (v' v'' : Vfs) × (m' : Memory) × (vfs_write fuel (pos fd) buffer count m v
        ≡ some (as_int (available v fd count), v'))
      × (vfs_read fuel (pos other) target count v' m₂
          ≡ some (as_int (available v fd count), v'', m'))
      × ((i : ℕ) → i < available v fd count → m' (target + i) ≡ m (buffer + i))
vfs_read-vfs_write fuel fd other buffer target count v m m₂ o o₂ ne same c small enough =
    let (v', e, moved, w) = vfs_write_total fuel fd buffer count v m o c small enough in
    let (v'', m', e₂, moved₂, kept, bytes) =
      vfs_read_total fuel other target count v' m₂ (other-IsOpen v v' fd _ other moved ne o₂)
        (omega arith) enough in
    let alike : v'.fd_table other ≡ v.fd_table fd = moved.others other ne ∙ same in
    let n : available v' other count ≡ available v fd count =
      ap (λ (f : FileDescriptor). min count (f.size - f.offset)) alike in
    (
      v',
      v'',
      m',
      e,
      subst (λ k. vfs_read fuel (pos other) target count v' m₂ ≡ some (as_int k, v'', m')) n e₂,
      λ i h.
          bytes (target + i)
          ∙ read_byte target (available v' other count) i
              (λ x.
                file_byte v'.archive.disk (v'.fd_table other).start_lba
                  ((v'.fd_table other).offset + x))
              m₂ (subst (λ k. i < k) (sym n) h)
          ∙ ap (λ (f : FileDescriptor). file_byte v'.archive.disk f.start_lba (f.offset + i)) alike
          ∙ Written-byte v.archive v'.archive (v.fd_table fd).start_lba (v.fd_table fd).offset
              (available v fd count) buffer i m w h (omega (arith, o.fits, o.inside)),
    )
