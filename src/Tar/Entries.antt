-- ===== src/Tar/Entries.antt =====
-- src/kernel/tar.c: the walks over the archive find its entries.
use mathlib.Core.Option
use zoho_os.Prelude.{
  ℕ, zero, suc, ◌+◌, ◌^◌, ◌≤◌, ◌<◌, ◌≡◌, ◌≢◌, refl, ap, sym, ◌∙◌, subst, List, [], ◌∷◌, Option,
  none, some, arith, if◌then◌else◌, get_elem?, Bool-cases, inl, inr, dec_lt, ℕ_discrete, length,
}
use zoho_os.Tar.{
  Sector, Disk, Archive, word32, cached_read_sector, header_size, same_name, next_lba, find_from,
  tar_find_file, index_from, tar_get_file_by_index,
}
use zoho_os.Tar.Cache.{IsCoherent, SameBut, read-IsCoherent}

-- Where the header after the one at `lba` would be.
abbrev pub after : Disk → ℕ → ℕ
after disk lba = next_lba lba (header_size (disk lba))

-- The sectors of the headers from `lba` on: up to an empty name, or to the first header after
-- which the archive would go on more than 20000 sectors behind its start.
pub data Headers (disk : Disk) (start : ℕ) : ℕ → List ℕ → Type 0 where
  end : {lba : ℕ} → disk lba 0 ≡ 0 → Headers disk start lba []
  last :
      {lba : ℕ}
      → disk lba 0 ≢ 0
      → word32 (start + 20000) < after disk lba
      → Headers disk start lba (lba ∷ [])
  more :
      {lba : ℕ} {ls : List ℕ}
      → disk lba 0 ≢ 0
      → after disk lba ≤ word32 (start + 20000)
      → Headers disk start (after disk lba) ls
      → Headers disk start lba (lba ∷ ls)

advances :
    (lba size : ℕ) → lba < 2 ^ 31 + 20001 → (lba < next_lba lba size) × (next_lba lba size < 2 ^ 32)
unfolding next_lba
advances lba size h = omega arith

-- Every disk has such a list from `lba` on, and a short one.
Headers-exist :
    (left : ℕ) (disk : Disk) (start lba : ℕ)
    → start < 2 ^ 31
    → start + 20000 < lba + left
    → lba ≤ start + 20000
    → (ls : List ℕ) × Headers disk start lba ls × (length ls ≤ left)
Headers-exist zero disk start lba small h low = absurd (omega arith)
Headers-exist (suc left) disk start lba small h low = elim (ℕ_discrete (disk lba 0) 0) [
  | yes stop ↦ ([], end stop, omega arith)
  | no go ↦ elim (dec_lt (word32 (start + 20000)) (after disk lba)) [
    | yes far ↦ (lba ∷ [], last go far, omega arith)
    | no near ↦
        let (up, fits) = advances lba (header_size (disk lba)) (omega arith) in
        let (ls, d, l) =
          Headers-exist left disk start (after disk lba) small (omega arith) (omega arith) in
        (lba ∷ ls, more go (omega arith) d, omega arith)
  ]
]

-- The first header with the name, as `tar_find_file` reports it.
unfoldable pub first_named : Disk → List ℕ → List ℕ → Option (ℕ × ℕ)
first_named disk name [] = none
first_named disk name (l ∷ ls) =
    if same_name (disk l) name
    then some (word32 (l + 1), header_size (disk l))
    else first_named disk name ls

abbrev pub Finds : List ℕ → Archive → Option (Option (ℕ × ℕ) × Archive) → List ℕ → Type 0
Finds name s r ls = (t : Archive) × (r ≡ some (first_named s.disk name ls, t)) × SameBut s t

abbrev pub Indexes : ℕ → Archive → Option (Option Sector × Archive) → List ℕ → Type 0
Indexes i s r ls = (t : Archive) × (r ≡ some (Option.map s.disk (get_elem? ls i), t)) × SameBut s t

SameBut-trans : (s t u : Archive) → SameBut s t → SameBut t u → SameBut s u
SameBut-trans s t u a b = record {
  coherent = b.coherent;
  disk = b.disk ∙ a.disk;
  start = b.start ∙ a.start;
}

-- A read gives the sector of the disk, and what remains to be walked is walked from the new state.
module _ (lba : ℕ) (s : Archive) (disk : Disk) (c : IsCoherent s) (d : disk ≡ s.disk) where
  sector : (cached_read_sector lba s).0 ≡ disk lba
  sector = (read-IsCoherent lba s c).0 ∙ ap (λ (D : Disk). D lba) (sym d)

  same : SameBut s (cached_read_sector lba s).1
  same = (read-IsCoherent lba s c).1

  walk_on :
      (ls : List ℕ)
      → Headers disk s.start_lba (after disk lba) ls
      → Headers disk (cached_read_sector lba s).1.start_lba (after disk lba) ls
  walk_on ls h = subst (λ start. Headers disk start (after disk lba) ls) (sym same.start) h

find_from-Finds :
    (fuel lba : ℕ) (name : List ℕ) (s : Archive) (disk : Disk) (ls : List ℕ)
    → IsCoherent s
    → disk ≡ s.disk
    → Headers disk s.start_lba lba ls
    → length ls < fuel
    → (t : Archive) × (find_from fuel lba name s ≡ some (first_named disk name ls, t)) × SameBut s t
unfolding find_from first_named
find_from-Finds zero lba name s disk ls c d h l = absurd (omega arith)
find_from-Finds (suc fuel) lba name s disk ls c d (end e) l = (
  (cached_read_sector lba s).1,
  rw (sector lba s disk c d) (ground (arith, e)),
  same lba s disk c d,
)
find_from-Finds (suc fuel) lba name s disk ls c d (last ne far) l = (
  (cached_read_sector lba s).1,
  rw (sector lba s disk c d) (ground (arith, ne, far)),
  same lba s disk c d,
)
find_from-Finds (suc fuel) lba name s disk ls c d (more {ls = ls'} ne near rest) l =
    let s' = (cached_read_sector lba s).1 in
    let b = same lba s disk c d in
    elim (Bool-cases (same_name (disk lba) name)) [
      | inl hit ↦ (s', rw (sector lba s disk c d) (ground (arith, ne, hit)), b)
      | inr miss ↦
          let (t, e, u) =
            find_from-Finds fuel (after disk lba) name s' disk ls' b.coherent (d ∙ sym b.disk)
              (walk_on lba s disk c d ls' rest) (omega arith) in
          (
            t,
            rw (sector lba s disk c d) (ground (arith, ne, miss, near, e)),
            SameBut-trans s s' t b u,
          )
    ]

index_from-Headers :
    (fuel lba k index : ℕ) (s : Archive) (disk : Disk) (ls : List ℕ)
    → IsCoherent s
    → disk ≡ s.disk
    → Headers disk s.start_lba lba ls
    → length ls < fuel
    → (t : Archive) × (index_from fuel lba k (k + index) s
        ≡ some (Option.map disk (get_elem? ls index), t))
      × SameBut s t
unfolding index_from
index_from-Headers zero lba k index s disk ls c d h l = absurd (omega arith)
index_from-Headers (suc fuel) lba k index s disk ls c d (end e) l = (
  (cached_read_sector lba s).1,
  rw (sector lba s disk c d) (ground (arith, e)),
  same lba s disk c d,
)
index_from-Headers (suc fuel) lba k zero s disk ls c d (last ne far) l = (
  (cached_read_sector lba s).1,
  rw (sector lba s disk c d) (ground (arith, ne, far)),
  same lba s disk c d,
)
index_from-Headers (suc fuel) lba k (suc index) s disk ls c d (last ne far) l = (
  (cached_read_sector lba s).1,
  rw (sector lba s disk c d) (ground (arith, ne, far)),
  same lba s disk c d,
)
index_from-Headers (suc fuel) lba k zero s disk ls c d (more {ls = ls'} ne near rest) l = (
  (cached_read_sector lba s).1,
  rw (sector lba s disk c d) (ground (arith, ne)),
  same lba s disk c d,
)
index_from-Headers (suc fuel) lba k (suc index) s disk ls c d (more {ls = ls'} ne near rest) l =
    let s' = (cached_read_sector lba s).1 in
    let b = same lba s disk c d in
    let (t, e, u) =
      index_from-Headers fuel (after disk lba) (k + 1) index s' disk ls' b.coherent (d ∙ sym b.disk)
        (walk_on lba s disk c d ls' rest) (omega arith) in
    let i : k + 1 + index ≡ k + suc index = omega arith in
    (t, rw (sector lba s disk c d) (ground (arith, ne, near, rw i at e)), SameBut-trans s s' t b u)

-- On a coherent cache, for an archive in the first half of the sectors, there is a list of headers
-- such that the two walks end in 20002 rounds, `tar_find_file` with the first header that has the
-- name and `tar_get_file_by_index` with the header at the index, and neither changes the disk.
pub walks_found :
    (fuel : ℕ) (s : Archive)
    → IsCoherent s
    → s.start_lba < 2 ^ 31
    → 20001 < fuel
    → (ls : List ℕ) × Headers s.disk s.start_lba s.start_lba ls
      × ((name : List ℕ) → Finds name s (tar_find_file fuel name s) ls)
      × ((i : ℕ) → Indexes i s (tar_get_file_by_index fuel i s) ls)
unfolding tar_find_file tar_get_file_by_index
walks_found fuel s c small enough =
    let (ls, h, l) =
      Headers-exist 20001 s.disk s.start_lba s.start_lba small (omega arith) (omega arith) in
    (
      ls,
      h,
      (λ name. find_from-Finds fuel s.start_lba name s s.disk ls c refl h (omega arith)),
      λ i.
          subst (λ j. Indexes i s (index_from fuel s.start_lba 0 j s) ls) (omega arith)
            (index_from-Headers fuel s.start_lba 0 i s s.disk ls c refl h (omega arith)),
    )
