-- ===== src/Vfs.antt =====
-- src/kernel/vfs.c: file descriptors on the archive of src/kernel/tar.c.
-- Each function runs its table accesses under `vfs_lock`; a call is one step. File descriptors are
-- C's `int`, buffers are places in memory.
pub mod Transfer
pub mod Table
pub mod Io
mod Tests
use zoho_os.Prelude.{
  ℕ, zero, suc, ◌+◌, ◌-◌, ◌*◌, ◌/◌, ◌%◌, ◌^◌, min, Bool, true, false, not, ◌&&◌, ◌||◌, List, [],
  ◌∷◌, Option, none, some, arith, ◌==◌, ltb, leb, if◌then◌else◌, update,
}
use zoho_os.Bytes.{Memory, within, ℤ, pos, negsuc}
use zoho_os.Tar.{
  Sector, Disk, Archive, word32, cached_write_sector, tar_find_file, tar_get_file_by_index,
}

abbrev pub max_fds : ℕ
max_fds = 16

-- `fd_t`
pub record FileDescriptor : Type 0 where
  pub start_lba : ℕ
  pub size : ℕ
  pub offset : ℕ
  pub in_use : Bool

-- `fd_table`, and the state of the archive below.
pub record Vfs : Type 0 where
  pub fd_table : ℕ → FileDescriptor
  pub archive : Archive

unfoldable pub vfs_init : Vfs → Vfs
vfs_init v = record v {
  fd_table = λ i. if ltb i max_fds then record (v.fd_table i) { in_use = false } else v.fd_table i;
}

-- The loop that looks for a free descriptor from index `i` on.
unfoldable pub free_fd : ℕ → ℕ → Vfs → Option ℕ
free_fd zero i v = none
free_fd (suc left) i v =
    let rest = free_fd left (i + 1) v in if not ((v.fd_table i).in_use) then some i else rest

-- The free descriptor is set up, if there is one.
claim_fd : ℕ → ℕ → Option ℕ → Vfs → ℤ × Vfs
claim_fd lba size none v = (negsuc 0, v)
claim_fd lba size (some i) v = (
  pos i,
  record v {
    fd_table =
        update v.fd_table i (record { start_lba = lba; size = size; offset = 0; in_use = true });
  },
)

-- What `vfs_open` does with the answer of `tar_find_file`.
pub finish_open : Option (ℕ × ℕ) → Vfs → ℤ × Vfs
unfolding claim_fd free_fd
finish_open none v = (negsuc 0, v)
finish_open (some (lba, size)) v = claim_fd lba size (free_fd max_fds 0 v) v

-- `none`: the fuel of the archive's walk ran out.
unfoldable pub vfs_open : ℕ → List ℕ → Vfs → Option (ℤ × Vfs)
unfolding finish_open
vfs_open fuel path v = elim (tar_find_file fuel path v.archive) [
  | none ↦ none
  | some (found, a) ↦ some (finish_open found (record v { archive = a }))
]

-- Bytes `from i` for `i` below `size`, written at `d`.
abbrev pub put_bytes : ℕ → ℕ → (ℕ → ℕ) → Memory → Memory
put_bytes d size from m a = if within d size a then from (a - d) else m a

-- What one round of the read loop puts at `at'`: a whole sector is read there at once.
unfoldable pub read_round : Disk → ℕ → ℕ → ℕ → ℕ → Memory → Memory
read_round disk start offset to_copy at' m =
    let lba = word32 (start + offset / 512) in
    let sector_offset = offset % 512 in
    if sector_offset == 0 && to_copy == 512
    then put_bytes at' 512 (disk lba) m
    else put_bytes at' to_copy (λ i. disk lba (sector_offset + i)) m

-- The loop of `vfs_read`: `done` is `bytes_read`.
unfoldable pub read_loop : ℕ → Disk → ℕ → ℕ → ℕ → ℕ → ℕ → Memory → Option Memory
unfolding read_round
read_loop zero disk start offset count done buffer m = none
read_loop (suc fuel) disk start offset count done buffer m =
    let to_copy = min (512 - offset % 512) (count - done) in
    let rest =
      read_loop fuel disk start (word32 (offset + to_copy)) count (word32 (done + to_copy)) buffer
        (read_round disk start offset to_copy (buffer + done) m) in
    if ltb done count then rest else some m

-- The number of bytes that a read transfers.
unfoldable pub read_count : FileDescriptor → ℕ → ℕ
read_count f count = if ltb (f.size - f.offset) count then f.size - f.offset else count

-- A `uint32_t` returned as an `int`.
abbrev pub as_int : ℕ → ℤ
as_int n = if ltb n (2 ^ 31) then pos n else negsuc (2 ^ 32 - n - 1)

set_offset : ℕ → ℕ → Vfs → Vfs
set_offset fd offset v = record v {
  fd_table = update v.fd_table fd (record (v.fd_table fd) { offset = offset });
}

-- `vfs_read` with a descriptor that is not negative.
read_fd : ℕ → ℕ → ℕ → ℕ → Vfs → Memory → Option (ℤ × Vfs × Memory)
unfolding read_loop read_count set_offset
read_fd fuel fd buffer count v m =
    let f = v.fd_table fd in
    let n = read_count f count in
    let v' = set_offset fd (word32 (f.offset + n)) v in
    if leb max_fds fd || not f.in_use
    then some (negsuc 0, v, m)
    else if leb f.size f.offset
    then some (pos 0, v, m)
    else elim (read_loop fuel v.archive.disk f.start_lba f.offset n 0 buffer m) [
      | none ↦ none
      | some m' ↦ some (as_int n, v', m')
    ]

unfoldable pub vfs_read : ℕ → ℤ → ℕ → ℕ → Vfs → Memory → Option (ℤ × Vfs × Memory)
unfolding read_fd
vfs_read fuel (pos fd) buffer count v m = read_fd fuel fd buffer count v m
vfs_read fuel (negsuc n) buffer count v m = some (negsuc 0, v, m)

-- One round of the write loop: a sector is read, changed from memory at `from` and written back.
unfoldable pub write_round : ℕ → ℕ → ℕ → ℕ → Memory → Archive → Archive
write_round start offset to_write from m s =
    let lba = word32 (start + offset / 512) in
    cached_write_sector lba (put_bytes (offset % 512) to_write (λ i. m (from + i)) (s.disk lba)) s

-- The loop of `vfs_write`: `done` is `bytes_written`.
unfoldable pub write_loop : ℕ → ℕ → ℕ → ℕ → ℕ → ℕ → Memory → Archive → Option Archive
unfolding write_round
write_loop zero start offset count done buffer m s = none
write_loop (suc fuel) start offset count done buffer m s =
    let to_write = min (512 - offset % 512) (count - done) in
    let rest =
      write_loop fuel start (word32 (offset + to_write)) count (word32 (done + to_write)) buffer m
        (write_round start offset to_write (buffer + done) m s) in
    if ltb done count then rest else some s

-- The number of bytes that a write transfers; `f->offset + count` wraps at 32 bits.
unfoldable pub write_count : FileDescriptor → ℕ → ℕ
write_count f count =
    if ltb f.size (word32 (f.offset + count)) then word32 (f.size + 2 ^ 32 - f.offset) else count

write_fd : ℕ → ℕ → ℕ → ℕ → Memory → Vfs → Option (ℤ × Vfs)
unfolding write_loop write_count set_offset
write_fd fuel fd buffer count m v =
    let f = v.fd_table fd in
    let n = write_count f count in
    let v' = set_offset fd (word32 (f.offset + n)) v in
    if leb max_fds fd || not f.in_use
    then some (negsuc 0, v)
    else elim (write_loop fuel f.start_lba f.offset n 0 buffer m v.archive) [
      | none ↦ none
      | some s ↦ some (as_int n, record v' { archive = s })
    ]

unfoldable pub vfs_write : ℕ → ℤ → ℕ → ℕ → Memory → Vfs → Option (ℤ × Vfs)
unfolding write_fd
vfs_write fuel (pos fd) buffer count m v = write_fd fuel fd buffer count m v
vfs_write fuel (negsuc n) buffer count m v = some (negsuc 0, v)

unfoldable pub vfs_size : ℤ → Vfs → ℕ
vfs_size (pos fd) v = if ltb fd max_fds && (v.fd_table fd).in_use then (v.fd_table fd).size else 0
vfs_size (negsuc n) v = 0

unfoldable pub vfs_close : ℤ → Vfs → Vfs
vfs_close (pos fd) v =
    if ltb fd max_fds
    then record v { fd_table = update v.fd_table fd (record (v.fd_table fd) { in_use = false }) }
    else v
vfs_close (negsuc n) v = v

-- The header whose name is copied to the caller.
unfoldable pub vfs_readdir : ℕ → ℕ → Vfs → Option (Option Sector × Vfs)
unfolding tar_get_file_by_index
vfs_readdir fuel index v = elim (tar_get_file_by_index fuel index v.archive) [
  | none ↦ none
  | some (header, a) ↦ some (header, record v { archive = a })
]
