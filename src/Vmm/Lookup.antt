-- ===== src/Vmm/Lookup.antt =====
-- src/kernel/vmm.c: what the tables say of a virtual address, as the processor reads them.
-- Only an entry of a page directory can name a huge page: the code makes no page of 1 GiB.
use zoho_os.Prelude.{
  ℕ, zero, suc, ◌+◌, ◌*◌, ◌/◌, ◌%◌, ◌^◌, ◌≡◌, refl, ap, Bool, true, false, not, ◌&&◌, List, [], ◌∷◌,
  Option, none, some, arith, if◌then◌else◌,
}
use zoho_os.Vmm.{
  Tables, is_present, is_huge, page_address, huge_address, pml4_index, pdpt_index, pd_index,
  pt_index,
}

-- The page of 4 KiB that an entry maps, with its flags.
abbrev pub leaf : ℕ → Option (ℕ × ℕ)
leaf e = if is_present e then some (page_address e, e % 2 ^ 12) else none

-- The page inside a huge page.
abbrev pub huge_leaf : ℕ → List ℕ → Option (ℕ × ℕ)
huge_leaf e [] = none
huge_leaf e (i ∷ is) = some (huge_address e + i * 2 ^ 12, e % 2 ^ 12)

-- An entry names a table `k` levels above the page tables.
abbrev pub links : ℕ → ℕ → Bool
links zero e = is_present e && not (is_huge e)
links (suc k) e = is_present e

-- The page at the end of a path of indices, from a table `k` levels above the page tables.
unfoldable pub lookup : Tables → ℕ → ℕ → List ℕ → Option (ℕ × ℕ)
lookup T k t [] = none
lookup T zero t (i ∷ is) = leaf (T t i)
lookup T (suc k) t (i ∷ is) =
    let below = lookup T k (page_address (T t i)) is in
    if links k (T t i) then below else if is_present (T t i) then huge_leaf (T t i) is else none

abbrev pub path : ℕ → List ℕ
path virt = pml4_index virt ∷ pdpt_index virt ∷ pd_index virt ∷ pt_index virt ∷ []

-- The page that an address space maps at an address, and its flags.
unfoldable pub translate : Tables → ℕ → ℕ → Option (ℕ × ℕ)
unfolding lookup
translate T pml4 virt = lookup T 3 pml4 (path virt)

-- A table of zeros maps nothing.
pub lookup-zeros :
    (T : Tables) (k t : ℕ) (is : List ℕ) → ((i : ℕ) → T t i ≡ 0) → lookup T k t is ≡ none
unfolding lookup
lookup-zeros T k t [] z = refl
lookup-zeros T zero t (i ∷ is) z = ground (arith, z i)
lookup-zeros T (suc zero) t (i ∷ is) z = ground (arith, z i)
lookup-zeros T (suc (suc k)) t (i ∷ is) z = ground (arith, z i)

-- A path goes on in the table that an entry names.
pub lookup_names :
    (T : Tables) (k t i n : ℕ) (is : List ℕ)
    → links k (T t i) ≡ true
    → page_address (T t i) ≡ n
    → lookup T (suc k) t (i ∷ is) ≡ lookup T k n is
unfolding lookup
lookup_names T k t i n is l e = ground (arith, l, ap (λ x. lookup T k x is) e)

-- It ends in a huge page, or in nothing, at any other entry.
pub lookup_huge :
    (T : Tables) (k t i j : ℕ)
    → links k (T t i) ≡ false
    → is_present (T t i) ≡ true
    → lookup T (suc k) t (i ∷ j ∷ []) ≡ some (huge_address (T t i) + j * 2 ^ 12, T t i % 2 ^ 12)
unfolding lookup
lookup_huge T k t i j l h = ground (arith, l, h)

pub lookup_absent :
    (T : Tables) (k t i : ℕ) (is : List ℕ)
    → is_present (T t i) ≡ false
    → lookup T (suc k) t (i ∷ is) ≡ none
unfolding lookup
lookup_absent T zero t i is h = ground (arith, h)
lookup_absent T (suc k) t i is h = ground (arith, h)

pub links_present : (k e : ℕ) → links k e ≡ true → is_present e ≡ true
links_present zero e h = ground (arith, h)
links_present (suc k) e h = h

-- Addresses with the same indices lie in the same page.
pub path-page :
    (v w : ℕ)
    → pml4_index w ≡ pml4_index v
    → pdpt_index w ≡ pdpt_index v
    → pd_index w ≡ pd_index v
    → (w / 2 ^ 21 % 2 ^ 27 ≡ v / 2 ^ 21 % 2 ^ 27)
      × (pt_index w ≡ pt_index v → w / 2 ^ 12 % 2 ^ 36 ≡ v / 2 ^ 12 % 2 ^ 36)
path-page v w a b c = (omega (arith, a, b, c), λ d. omega (arith, a, b, c, d))
