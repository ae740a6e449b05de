-- ===== src/Tar/Cache.antt =====
-- src/kernel/tar.c: the cache of one sector is transparent.
use zoho_os.Prelude.{ℕ, ◌≡◌, refl, ap, ◌∙◌, true, ◌&&◌, arith, ◌==◌, Bool-cases, inl, inr}
use mathlib.Core.Path.{fun_ext}
use zoho_os.Tar.{Sector, Archive, cached_read_sector, cached_write_sector}

-- What the cache holds is what the disk holds.
abbrev pub IsCoherent : Archive → Type 0
IsCoherent s = s.cache.valid ≡ true → s.cache.data' ≡ s.disk s.cache.lba

-- `s` and `t` differ in what is cached only.
pub record SameBut (s t : Archive) : Type 0 where
  pub coherent : IsCoherent t
  pub disk : t.disk ≡ s.disk
  pub start : t.start_lba ≡ s.start_lba

pub read-IsCoherent :
    (lba : ℕ) (s : Archive)
    → IsCoherent s
    → let (b, t) = cached_read_sector lba s in (b ≡ s.disk lba) × SameBut s t
unfolding cached_read_sector
read-IsCoherent lba s c = elim (Bool-cases (s.cache.valid && s.cache.lba == lba)) [
  | inl hit ↦ rw hit (
    c (ground (arith, hit)) ∙ ap s.disk (ground (arith, hit)),
    record { coherent = c; disk = refl; start = refl },
  )
  | inr miss ↦ rw miss (refl, record { coherent = λ v. refl; disk = refl; start = refl })
]

-- A write leaves the cache coherent, puts the buffer in its sector and spares the others.
pub write-IsCoherent :
    (lba : ℕ) (buffer : Sector) (s : Archive) → IsCoherent (cached_write_sector lba buffer s)
unfolding cached_write_sector
write-IsCoherent lba buffer s v = fun_ext λ i. ground arith
