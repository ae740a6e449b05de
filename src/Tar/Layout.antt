-- ===== src/Tar/Layout.antt =====
-- src/kernel/tar.c: where the headers and the files of an archive stand, and what the walks find.
use zoho_os.Prelude.{
  ℕ, zero, suc, ◌+◌, ◌*◌, ◌/◌, ◌^◌, ◌≤◌, ◌<◌, ◌≡◌, ◌≢◌, ◌⊎◌, refl, ap, sym, true, List, [], ◌∷◌,
  Option, none, some, arith, get_elem?, Bool-cases, inl, inr, dec_lt, length, subst,
}
use zoho_os.Tar.{
  Sector, Disk, Archive, word32, header_size, same_name, next_lba, tar_find_file,
  tar_get_file_by_index,
}
use zoho_os.Tar.Cache.{IsCoherent, SameBut}
use zoho_os.Tar.Octal.{octal_to_int_bound}
use zoho_os.Tar.Entries.{Headers, end, last, more, first_named, Indexes, walks_found}

-- A file of `size` bytes takes the `k` sectors that just hold it. The sizes of the last 511 numbers
-- of 32 bits count as empty.
abbrev pub Taken : ℕ → ℕ → Type 0
Taken size k =
    ((size + 511 < 2 ^ 32) × (size ≤ 512 * k) × (512 * k < size + 512))
    ⊎ ((2 ^ 32 ≤ size + 511) × (k ≡ 0))

-- The headers of the archive from sector `lba` on stand at the sectors of the list: behind a header
-- come the `k` sectors of its file and then the next header. The archive ends at an empty name, and
-- behind a header after which it would go on more than 20000 sectors from its start.
pub data Layout (disk : Disk) (start : ℕ) : ℕ → List ℕ → Type 0 where
  no_name : {lba : ℕ} → disk lba 0 ≡ 0 → Layout disk start lba []
  far :
      {lba : ℕ} (k : ℕ)
      → disk lba 0 ≢ 0
      → Taken (header_size (disk lba)) k
      → start + 20000 < lba + 1 + k
      → Layout disk start lba (lba ∷ [])
  near :
      {lba : ℕ} {ls : List ℕ} (k : ℕ)
      → disk lba 0 ≢ 0
      → Taken (header_size (disk lba)) k
      → lba + 1 + k ≤ start + 20000
      → Layout disk start (lba + 1 + k) ls
      → Layout disk start lba (lba ∷ ls)

-- The name in the header is these bytes, and then a NUL.
abbrev pub HasName : Sector → List ℕ → Type 0
HasName header name =
    ((i : ℕ) → i < length name → get_elem? name i ≡ some (header i)) × (header (length name) ≡ 0)

-- The first of the headers that has the name: the sector behind it, and the size of its file.
pub data FirstNamed (disk : Disk) (name : List ℕ) : List ℕ → Option (ℕ × ℕ) → Type 0 where
  nowhere : FirstNamed disk name [] none
  here :
      {l : ℕ} {ls : List ℕ}
      → HasName (disk l) name
      → FirstNamed disk name (l ∷ ls) (some (l + 1, header_size (disk l)))
  later :
      {l : ℕ} {ls : List ℕ} {r : Option (ℕ × ℕ)}
      → ¬ HasName (disk l) name
      → FirstNamed disk name ls r
      → FirstNamed disk name (l ∷ ls) r

-- `tar_find_file` gives this, and changes nothing but what is cached.
abbrev pub FindsFirst : List ℕ → Archive → Option (Option (ℕ × ℕ) × Archive) → List ℕ → Type 0
FindsFirst name s r ls =
    (found : Option (ℕ × ℕ)) × (t : Archive) × (r ≡ some (found, t))
    × FirstNamed s.disk name ls found
    × SameBut s t

same_name-HasName :
    (name : List ℕ) (header : Sector) → same_name header name ≡ true → HasName header name
unfolding same_name
same_name-HasName [] header e = ((λ i l. absurd (omega arith)), ground (arith, e))
same_name-HasName (c ∷ cs) header e =
    let head : header 0 ≡ c = ground (arith, e) in
    let rest : same_name (λ i. header (suc i)) cs ≡ true = ground (arith, e) in
    let (bytes, stop) = same_name-HasName cs (λ i. header (suc i)) rest in (each head bytes, stop)
  where
    each :
        header 0 ≡ c
        → ((i : ℕ) → i < length cs → get_elem? cs i ≡ some (header (suc i)))
        → (i : ℕ) → i < length (c ∷ cs)
        → get_elem? (c ∷ cs) i ≡ some (header i)
    each head bytes zero l = ap some (sym head)
    each head bytes (suc i) l = bytes i (omega arith)

HasName-same_name :
    (name : List ℕ) (header : Sector) → HasName header name → same_name header name ≡ true
unfolding same_name
HasName-same_name [] header h = ground (arith, h.1)
HasName-same_name (c ∷ cs) header h =
    let first : some c ≡ some (header 0) = h.0 0 (omega arith) in
    let rest =
      HasName-same_name cs (λ i. header (suc i)) ((λ i l. h.0 (suc i) (omega arith)), h.1) in
    ground (arith, first, rest)

-- What the step over a file is.
next_lba-Taken :
    (lba size : ℕ)
    → lba < 2 ^ 31 + 20001
    → size < 2 ^ 32
    → (k : ℕ) × Taken size k × (next_lba lba size ≡ lba + 1 + k)
unfolding next_lba
next_lba-Taken lba size low small = elim (dec_lt (size + 511) (2 ^ 32)) [
  | yes fits ↦ ((size + 511) / 512, inl (fits, omega arith, omega arith), omega arith)
  | no over ↦ (0, inr (omega arith, refl), omega arith)
]

header_size_bound : (header : Sector) → header_size header < 2 ^ 32
unfolding header_size
header_size_bound header = octal_to_int_bound (λ i. header (124 + i))

Headers-Layout :
    (disk : Disk) (start lba : ℕ) (ls : List ℕ)
    → start < 2 ^ 31
    → lba ≤ start + 20000
    → Headers disk start lba ls
    → Layout disk start lba ls
Headers-Layout disk start lba [] small low (end stop) = no_name stop
Headers-Layout disk start lba (_ ∷ []) small low (last go beyond) =
    let (k, taken, e) =
      next_lba-Taken lba (header_size (disk lba)) (omega arith) (header_size_bound (disk lba)) in
    far k go taken (omega (arith, e, beyond))
Headers-Layout disk start lba (_ ∷ ls') small low (more go within rest) =
    let (k, taken, e) =
      next_lba-Taken lba (header_size (disk lba)) (omega arith) (header_size_bound (disk lba)) in
    let inside : lba + 1 + k ≤ start + 20000 = omega (arith, e, within) in
    near k go taken inside (
      Headers-Layout disk start (lba + 1 + k) ls' small inside
        (subst (λ l. Headers disk start l ls') e rest))

-- One header is looked at.
look :
    (disk : Disk) (name : List ℕ) (l : ℕ) (ls : List ℕ)
    → l + 1 < 2 ^ 32
    → FirstNamed disk name ls (first_named disk name ls)
    → FirstNamed disk name (l ∷ ls) (first_named disk name (l ∷ ls))
unfolding first_named
look disk name l ls small rest = elim (Bool-cases (same_name (disk l) name)) [
  | inl hit ↦
      let e : word32 (l + 1) ≡ l + 1 = omega arith in
      rw (hit, e) (here (same_name-HasName name (disk l) hit))
  | inr miss ↦ rw miss (later (λ h. ground (arith, HasName-same_name name (disk l) h, miss)) rest)
]

first_named-FirstNamed :
    (disk : Disk) (name : List ℕ) (start lba : ℕ) (ls : List ℕ)
    → start < 2 ^ 31
    → lba ≤ start + 20000
    → Layout disk start lba ls
    → FirstNamed disk name ls (first_named disk name ls)
unfolding first_named
first_named-FirstNamed disk name start lba [] small low (no_name stop) = nowhere
first_named-FirstNamed disk name start lba (_ ∷ []) small low (far k go taken beyond) =
    look disk name lba [] (omega arith) nowhere
first_named-FirstNamed disk name start lba (_ ∷ ls') small low (near k go taken inside rest) =
    look disk name lba ls' (omega arith)
      (first_named-FirstNamed disk name start (lba + 1 + k) ls' small inside rest)

-- In a coherent archive that starts in the first half of the sectors, the headers stand one behind
-- the other, each followed by just the sectors that hold its file (none for one of the last 511 sizes
-- of 32 bits), up to an empty name or to where the archive would go on more than 20000 sectors from
-- its start. With fuel for 20002 of them both walks end: `tar_find_file` with the first file that has
-- exactly the name, `tar_get_file_by_index` with the header at the index, or each with none. Neither
-- changes the disk.
pub walks_total :
    (fuel : ℕ) (s : Archive)
    → IsCoherent s
    → s.start_lba < 2 ^ 31
    → 20001 < fuel
    → (ls : List ℕ) × Layout s.disk s.start_lba s.start_lba ls
      × ((name : List ℕ) → FindsFirst name s (tar_find_file fuel name s) ls)
      × ((i : ℕ) → Indexes i s (tar_get_file_by_index fuel i s) ls)
walks_total fuel s c small enough =
    let (ls, h, find, index) = walks_found fuel s c small enough in
    let layout = Headers-Layout s.disk s.start_lba s.start_lba ls small (omega arith) h in
    (
      ls,
      layout,
      (λ name.
          let (t, e, same) = find name in
          (
            first_named s.disk name ls,
            t,
            e,
            first_named-FirstNamed s.disk name s.start_lba s.start_lba ls small (omega arith)
                layout,
            same,
          )),
      index,
    )
