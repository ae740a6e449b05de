-- ===== src/Vmm/Walk.antt =====
-- src/kernel/vmm.c: how `vmm_unmap`, `vmm_get_phys` and `vmm_get_flags` find a page directory.
use zoho_os.Prelude.{
  ℕ, suc, ◌≡◌, ◌≢◌, refl, sym, ap, ◌∙◌, true, false, List, [], ◌∷◌, ◌++◌, none, some, arith,
  Bool-cases, inl, inr,
}
use zoho_os.Vmm.{Tables, is_present, page_address, pml4_index, pdpt_index}
use zoho_os.Vmm.Lookup.{lookup, lookup_names, links, links_present}
use zoho_os.Vmm.Tree.{Place, IsTree, ne_of_place}
use zoho_os.Vmm.{get_existing_table, find_pd}
use zoho_os.Vmm.Lookup.{lookup_absent}
use zoho_os.Vmm.Descend.{Reached}

-- An entry that names a table leads the code there.
pub existing :
    (root : ℕ) (place : Place) (T : Tables) (t i k : ℕ) (p : List ℕ)
    → IsTree root place T
    → place t ≡ some (suc k, p)
    → links k (T t i) ≡ true
    → (get_existing_table T t i ≡ page_address (T t i)) × (get_existing_table T t i ≢ 0)
unfolding get_existing_table
existing root place T t i k p tree at' l =
    let e : get_existing_table T t i ≡ page_address (T t i) =
      ground (arith, links_present k (T t i) l) in
    (
      e,
      ne_of_place place (get_existing_table T t i) 0 (k, p ++ i ∷ [])
          (ap place e ∙ tree.linked t i k p at' l) tree.null,
    )

pub not_existing :
    (T : Tables) (t i : ℕ) → is_present (T t i) ≡ false → get_existing_table T t i ≡ 0
unfolding get_existing_table
not_existing T t i h = ground (arith, h)

-- The walk to the page directory, as the code makes it: either a table is missing and nothing is
-- mapped, or the directory is reached.
pub data Walk (root : ℕ) (place : Place) (T : Tables) (virt : ℕ) : Type 0 where
  missing :
      find_pd T root virt ≡ 0
      → ((q : List ℕ) → lookup T 3 root (pml4_index virt ∷ pdpt_index virt ∷ q) ≡ none)
      → Walk root place T virt
  reached :
      (pdpt pd : ℕ)
      → find_pd T root virt ≡ pd
      → pd ≢ 0
      → Reached root place T virt pdpt pd
      → Walk root place T virt

find_pd_eq :
    (T : Tables) (root virt pdpt : ℕ)
    → get_existing_table T root (pml4_index virt) ≡ pdpt
    → pdpt ≢ 0
    → find_pd T root virt ≡ get_existing_table T pdpt (pdpt_index virt)
unfolding find_pd
find_pd_eq T root virt pdpt e ne =
    ground (arith, e, ne, ap (λ x. get_existing_table T x (pdpt_index virt)) e)

-- The second step of the walk, in the table that the first one found.
Walk-on :
    (root : ℕ) (place : Place) (T : Tables) (virt pdpt : ℕ)
    → IsTree root place T
    → is_present (T root (pml4_index virt)) ≡ true
    → page_address (T root (pml4_index virt)) ≡ pdpt
    → Walk root place T virt
Walk-on root place T virt pdpt tree h e =
    let i = pml4_index virt in
    let j = pdpt_index virt in
    let at' : place pdpt ≡ some (2, i ∷ []) =
      ap place (sym e) ∙ tree.linked root i 2 [] tree.top h in
    let a = existing root place T root i 2 [] tree tree.top h in
    let f = find_pd_eq T root virt pdpt (a.0 ∙ e) (λ z. a.1 (a.0 ∙ e ∙ z)) in
    elim (Bool-cases (is_present (T pdpt j))) [
      | inl g ↦
          let b = existing root place T pdpt j 1 (i ∷ []) tree at' g in
          reached pdpt (page_address (T pdpt j)) (f ∙ b.0) (λ z. b.1 (b.0 ∙ z))
            (record {
              tree = tree;
              pdpt_at = at';
              pd_at = tree.linked pdpt j 1 (i ∷ []) at' g;
              to_pdpt = (h, e);
              to_pd = (g, refl);
            })
      | inr g ↦
          missing (f ∙ not_existing T pdpt j g)
            (λ q. lookup_names T 2 root i pdpt (j ∷ q) h e ∙ lookup_absent T 1 pdpt j q g)
    ]

pub walk :
    (root : ℕ) (place : Place) (T : Tables) (virt : ℕ)
    → IsTree root place T
    → Walk root place T virt
unfolding find_pd
walk root place T virt tree = elim (Bool-cases (is_present (T root (pml4_index virt)))) [
  | inr h ↦
      missing (ground (arith, not_existing T root (pml4_index virt) h))
        (λ q. lookup_absent T 2 root (pml4_index virt) (pdpt_index virt ∷ q) h)
  | inl h ↦ Walk-on root place T virt (page_address (T root (pml4_index virt))) tree h refl
]
