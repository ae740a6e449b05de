-- ===== src/Vfs/Tests.antt =====
-- src/kernel/vfs.c: the theorems of the file system at concrete states.
use zoho_os.Prelude.{
  ℕ, ◌+◌, ◌%◌, ◌<◌, ◌≡◌, refl, true, false, List, Option, [], ◌∷◌, some, arith, ltb, if◌then◌else◌,
}
use zoho_os.Bytes.{Memory, ℤ, pos}
use zoho_os.Tar.{Archive}
use zoho_os.Tar.Cache.{SameBut}
use zoho_os.Tar.Layout.{Layout, FirstNamed}
use zoho_os.Vfs.{FileDescriptor, Vfs, put_bytes, vfs_open, vfs_read, vfs_write}
use zoho_os.Vfs.Transfer.{file_byte, Written}
use zoho_os.Vfs.Table.{OpenedAs, vfs_open_total}
use zoho_os.Vfs.Io.{IsOpen, Moved, vfs_read_total, vfs_write_total, vfs_read-vfs_write}

-- Each byte of the disk is the number of its sector.
abbrev numbered : Archive
numbered = record {
  disk = λ lba i. lba;
  cache = record { lba = 0; data' = λ i. 0; valid = false };
  start_lba = 7;
}

abbrev a_file : FileDescriptor
a_file = record { start_lba = 8; size = 600; offset = 500; in_use = true }

-- Descriptors 0 and 1 are at byte 500 of a file of 600 bytes, the others are free.
abbrev two_open : Vfs
two_open = record {
  fd_table = λ i. if ltb i 2 then a_file else record a_file { in_use = false };
  archive = numbered;
}

abbrev counting : Memory
counting a = a % 256

first-IsOpen : IsOpen two_open 0
first-IsOpen = record { known = omega arith; used = refl; fits = omega arith; inside = omega arith }

second-IsOpen : IsOpen two_open 1
second-IsOpen = record {
  known = omega arith;
  used = refl;
  fits = omega arith;
  inside = omega arith;
}

vfs_read_total_example :
    (v' : Vfs) × (m' : Memory) × (vfs_read 1000 (pos 0) 4096 200 two_open counting
      ≡ some (pos 100, v', m'))
    × Moved two_open v' 0 100
    × (v'.archive ≡ numbered)
    × ((a : ℕ) → m' a ≡ put_bytes 4096 100 (λ i. file_byte numbered.disk 8 (500 + i)) counting a)
vfs_read_total_example =
    vfs_read_total 1000 0 4096 200 two_open counting first-IsOpen (omega arith) (omega arith)

vfs_write_total_example :
    (v' : Vfs) × (vfs_write 1000 (pos 0) 4096 20 counting two_open ≡ some (pos 20, v'))
    × Moved two_open v' 0 20
    × Written numbered v'.archive 8 500 20 4096 counting
vfs_write_total_example =
    vfs_write_total 1000 0 4096 20 two_open counting first-IsOpen (λ v. cc) (omega arith)
      (omega arith)

vfs_read-vfs_write_example :
    (v' v'' : Vfs) × (m' : Memory) × (vfs_write 1000 (pos 0) 4096 20 counting two_open
      ≡ some (pos 20, v'))
    × (vfs_read 1000 (pos 1) 8192 20 v' counting ≡ some (pos 20, v'', m'))
    × ((i : ℕ) → i < 20 → m' (8192 + i) ≡ counting (4096 + i))
vfs_read-vfs_write_example =
    vfs_read-vfs_write 1000 0 1 4096 8192 20 two_open counting counting first-IsOpen second-IsOpen
      (omega arith) refl (λ v. cc) (omega arith) (omega arith)

vfs_open_total_example :
    (ls : List ℕ) × (a : Archive) × (found : Option (ℕ × ℕ)) × (fd : ℤ) × (v' : Vfs) × Layout
      numbered.disk 7 7 ls
    × FirstNamed numbered.disk (b'a' ∷ []) ls found
    × SameBut numbered a
    × (vfs_open 20002 (b'a' ∷ []) two_open ≡ some (fd, v'))
    × OpenedAs found (record two_open { archive = a }) fd v'
vfs_open_total_example =
    vfs_open_total 20002 (b'a' ∷ []) two_open (λ v. cc) (omega arith) (omega arith)
