-- ===== src/Tar/Tests.antt =====
-- src/kernel/tar.c: the theorems of the archive at concrete states, and runs of its code.
use zoho_os.Prelude.{
  ℕ, ◌-◌, ◌≡◌, refl, false, List, [], ◌∷◌, Option, none, some, arith, ◌==◌, ltb, if◌then◌else◌,
}
use zoho_os.Tar.{
  Sector, Archive, cached_read_sector, octal_from, octal_to_int, header_size, same_name, next_lba,
  find_from, tar_find_file, tar_get_file_by_index,
}
use zoho_os.Tar.Octal.{octal_digits, octal_to_int-octal_digits}
use zoho_os.Tar.Entries.{Indexes}
use zoho_os.Tar.Layout.{Layout, FindsFirst, walks_total}

-- A header of the file "a" of 600 bytes, which has 1130 in octal.
abbrev a_header : Sector
a_header i =
    if i == 0
    then b'a'
    else if ltb 123 i
    then (if ltb i 135 then octal_digits 11 600 (i - 124) else 0)
    else 0

-- The file "a" stands at sector 7, its two sectors are 8 and 9, and the archive ends at 10.
abbrev one_file : Archive
one_file = record {
  disk = λ lba. if lba == 7 then a_header else λ i. 0;
  cache = record { lba = 0; data' = λ i. 0; valid = false };
  start_lba = 7;
}

abbrev answer : Option (Option (ℕ × ℕ) × Archive) → Option (ℕ × ℕ)
answer none = none
answer (some (found, s)) = found

found_a : answer (tar_find_file 5 (b'a' ∷ []) one_file) ≡ some (8, 600)
unfolding tar_find_file find_from cached_read_sector header_size octal_to_int octal_from same_name
    next_lba
found_a = refl

missing_b : answer (tar_find_file 5 (b'b' ∷ []) one_file) ≡ none
unfolding tar_find_file find_from cached_read_sector header_size octal_to_int octal_from same_name
    next_lba
missing_b = refl

octal_to_int-octal_digits_example : octal_to_int (octal_digits 11 600) ≡ 600
octal_to_int-octal_digits_example = octal_to_int-octal_digits 11 600 (omega arith) (omega arith)

walks_total_example :
    (ls : List ℕ) × Layout one_file.disk 7 7 ls
    × ((name : List ℕ) → FindsFirst name one_file (tar_find_file 20002 name one_file) ls)
    × ((i : ℕ) → Indexes i one_file (tar_get_file_by_index 20002 i one_file) ls)
walks_total_example = walks_total 20002 one_file (λ v. cc) (omega arith) (omega arith)
