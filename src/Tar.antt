-- ===== src/Tar.antt =====
-- src/kernel/tar.c: the archive on disk, read through a cache of one sector.
-- `ata_read_sector` and `ata_write_sector` of src/kernel/ata.c are taken to succeed: they move one
-- sector of 512 bytes. They send the low 28 bits of the number to the drive, so that numbers that are
-- alike in these name the same sector. The disk gives for each number what a read of it gives.
pub mod Cache
pub mod Octal
pub mod Entries
pub mod Layout
mod Tests
use zoho_os.Prelude.{
  ℕ, zero, suc, ◌+◌, ◌-◌, ◌*◌, ◌/◌, ◌%◌, ◌^◌, bit_or, Bool, true, false, ◌&&◌, ◌||◌, List, [], ◌∷◌,
  Option, none, some, arith, ◌==◌, ltb, leb, if◌then◌else◌, update,
}

abbrev pub Sector : Type 0
Sector = ℕ → ℕ

abbrev pub Disk : Type 0
Disk = ℕ → Sector

-- `struct sector_cache`
pub record SectorCache : Type 0 where
  pub lba : ℕ
  pub data' : Sector
  pub valid : Bool

-- The disk, `cache` and `tar_start_lba`.
pub record Archive : Type 0 where
  pub disk : Disk
  pub cache : SectorCache
  pub start_lba : ℕ

abbrev pub word32 : ℕ → ℕ
word32 n = n % 2 ^ 32

-- The bytes that the caller's buffer receives, and the new state.
unfoldable pub cached_read_sector : ℕ → Archive → Sector × Archive
cached_read_sector lba s =
    if s.cache.valid && s.cache.lba == lba
    then (s.cache.data', s)
    else (s.disk lba, record s { cache = record { lba = lba; data' = s.disk lba; valid = true } })

-- Two numbers name the same sector of the drive.
abbrev pub names_same : ℕ → ℕ → Bool
names_same lba l = (l % 2 ^ 28) == (lba % 2 ^ 28)

-- `ata_write_sector`, as later reads see it
abbrev pub write_sector : ℕ → Sector → Disk → Disk
write_sector lba buffer disk l = if names_same lba l then buffer else disk l

unfoldable pub cached_write_sector : ℕ → Sector → Archive → Archive
cached_write_sector lba buffer s = record s {
  disk = write_sector lba buffer s.disk;
  cache = record { lba = lba; data' = buffer; valid = true };
}

-- The loop of `octal_to_int` with `left` digits to go; `res` is the value so far.
unfoldable pub octal_from : ℕ → (ℕ → ℕ) → ℕ → ℕ
octal_from zero oct res = res
octal_from (suc left) oct res =
    let rest = octal_from left (λ i. oct (suc i)) (bit_or (word32 (res * 8)) (oct 0 - b'0')) in
    if ltb (oct 0) b'0' || ltb b'7' (oct 0) then res else rest

unfoldable pub octal_to_int : (ℕ → ℕ) → ℕ
unfolding octal_from
octal_to_int oct = octal_from 11 oct 0

-- `header->size`
unfoldable pub header_size : Sector → ℕ
unfolding octal_to_int
header_size header = octal_to_int (λ i. header (124 + i))

-- `strcmp(header->name, name) == 0`, for a name without its NUL.
unfoldable pub same_name : Sector → List ℕ → Bool
same_name header [] = header 0 == 0
same_name header (c ∷ cs) = (header 0 == c) && same_name (λ i. header (suc i)) cs

-- `current_lba += 1 + ((size + 511) / 512)`
unfoldable pub next_lba : ℕ → ℕ → ℕ
next_lba lba size = word32 (lba + 1 + word32 (size + 511) / 512)

unfoldable pub tar_init_disk : ℕ → Archive → Archive
tar_init_disk start s = record s { start_lba = start }

-- The loop of `tar_find_file`: the file's first sector and its size, and the new state. The outer
-- `none` says that the fuel ran out, the inner one that there is no such file.
unfoldable pub find_from : ℕ → ℕ → List ℕ → Archive → Option (Option (ℕ × ℕ) × Archive)
find_from zero lba name s = none
find_from (suc fuel) lba name s =
    let (header, s') = cached_read_sector lba s in
    let after = next_lba lba (header_size header) in
    let rest = find_from fuel after name s' in
    if header 0 == 0
    then some (none, s')
    else if same_name header name
    then some (some (word32 (lba + 1), header_size header), s')
    else if ltb (word32 (s.start_lba + 20000)) after
    then some (none, s')
    else rest

unfoldable pub tar_find_file : ℕ → List ℕ → Archive → Option (Option (ℕ × ℕ) × Archive)
unfolding find_from
tar_find_file fuel name s = find_from fuel s.start_lba name s

-- An `int` index is given by its 32 bits: a negative one is 2 ^ 31 or more, which no round reaches.
-- The loop of `tar_get_file_by_index`: the header whose name `strcpy` copies to the caller.
unfoldable pub index_from : ℕ → ℕ → ℕ → ℕ → Archive → Option (Option Sector × Archive)
index_from zero lba current_idx index s = none
index_from (suc fuel) lba current_idx index s =
    let (header, s') = cached_read_sector lba s in
    let after = next_lba lba (header_size header) in
    let rest = index_from fuel after (current_idx + 1) index s' in
    if header 0 == 0
    then some (none, s')
    else if current_idx == index
    then some (some header, s')
    else if ltb (word32 (s.start_lba + 20000)) after
    then some (none, s')
    else rest

unfoldable pub tar_get_file_by_index : ℕ → ℕ → Archive → Option (Option Sector × Archive)
unfolding index_from
tar_get_file_by_index fuel index s = index_from fuel s.start_lba 0 index s
