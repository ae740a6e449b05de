-- ===== src/Vmm/Unmap.antt =====
-- src/kernel/vmm.c: `vmm_unmap` on the tree of tables.
use zoho_os.Prelude.{
  ℕ, ◌/◌, ◌%◌, ◌^◌, ◌≡◌, ◌≢◌, refl, sym, ap, ◌∙◌, true, false, [], ◌∷◌, none, some, arith, ◌==◌,
  if◌then◌else◌, Bool-cases, inl, inr, update, ==_of_ne,
}
use zoho_os.Vmm.{
  Vmm, Tables, is_present, is_huge, page_address, pml4_index, pdpt_index, pd_index, pt_index,
  write_entry,
}
use zoho_os.Vmm.Lookup.{lookup, links, path, translate}
use zoho_os.Vmm.Tree.{Place, IsTree, write-IsTree}
use zoho_os.Vmm.{get_existing_table, find_pd, vmm_unmap}
use zoho_os.Vmm.Lookup.{lookup_absent}
use zoho_os.Vmm.Descend.{Reached, write_elsewhere, lookup-Reached}
use zoho_os.Vmm.Huge.{set_pd, set_pd-Directed, same_directory}
use zoho_os.Vmm.Map.{page_seen, no_huge, same_path, other_path}
use zoho_os.Vmm.Walk.{existing, not_existing, missing, reached, walk}

-- What unmapping the page of `virt` does: the page is not mapped; nothing changes in other ranges of
-- 2 MiB, nor on the other pages of this one if no huge page was mapped there.
pub record Unmapped (root : ℕ) (place : Place) (T T' : Tables) (virt : ℕ) : Type 0 where
  pub tree : IsTree root place T'
  pub here : (w : ℕ) → w / 2 ^ 12 % 2 ^ 36 ≡ virt / 2 ^ 12 % 2 ^ 36 → translate T' root w ≡ none
  pub far :
      (w : ℕ)
      → w / 2 ^ 21 % 2 ^ 27 ≢ virt / 2 ^ 21 % 2 ^ 27
      → translate T' root w ≡ translate T root w
  pub near :
      ((f fl : ℕ) → translate T root virt ≡ some (f, fl) → is_huge fl ≡ false)
      → (w : ℕ) → w / 2 ^ 12 % 2 ^ 36 ≢ virt / 2 ^ 12 % 2 ^ 36
      → translate T' root w ≡ translate T root w

-- Nothing was mapped, and nothing is changed.
unmap_nothing :
    (root : ℕ) (place : Place) (T : Tables) (virt : ℕ)
    → IsTree root place T
    → translate T root virt ≡ none
    → Unmapped root place T T virt
unfolding translate
unmap_nothing root place T virt tree e = record {
  tree = tree;
  here = λ w s. ap (lookup T 3 root) (same_path virt w s) ∙ e;
  far = λ w d. refl;
  near = λ plain w d. refl;
}

-- An entry that has the bit of a huge page, where none is mapped, is not present.
absent_directory :
    (root : ℕ) (place : Place) (T : Tables) (virt pdpt pd : ℕ)
    → Reached root place T virt pdpt pd
    → is_huge (T pd (pd_index virt)) ≡ true
    → ((f fl : ℕ) → translate T root virt ≡ some (f, fl) → is_huge fl ≡ false)
    → (w : ℕ) → w / 2 ^ 21 % 2 ^ 27 ≡ virt / 2 ^ 21 % 2 ^ 27
    → lookup T 3 root (path w) ≡ none
absent_directory root place T virt pdpt pd way huge plain w s =
    let i = pd_index virt in
    elim (Bool-cases (is_present (T pd i))) [
      | inl h ↦
          let l = no_huge root place T virt pdpt pd way plain h in absurd (ground (arith, l, huge))
      | inr h ↦
          ap (lookup T 3 root) (same_directory virt w s)
          ∙ lookup-Reached root place T virt pdpt pd (i ∷ pt_index w ∷ []) way
          ∙ lookup_absent T 0 pd i (pt_index w ∷ []) h
    ]

-- The entry of the page directory is cleared.
unmap_huge :
    (root : ℕ) (place : Place) (T : Tables) (virt pdpt pd : ℕ)
    → Reached root place T virt pdpt pd
    → is_huge (T pd (pd_index virt)) ≡ true
    → Unmapped root place T (set_pd T pd virt 0) virt
unfolding translate
unmap_huge root place T virt pdpt pd way huge =
    let made = set_pd-Directed root place T virt pdpt pd 0 way refl in
    let T' = set_pd T pd virt 0 in
    let gone : (w : ℕ)
        → w / 2 ^ 21 % 2 ^ 27 ≡ virt / 2 ^ 21 % 2 ^ 27
        → lookup T' 3 root (path w) ≡ none =
      λ w s.
        made.here w s
        ∙ lookup_absent T' 0 pd (pd_index virt) (pt_index w ∷ [])
            (ap (λ x. is_present x) made.wrote) in
    record {
      tree = made.tree;
      here = λ w s. gone w (omega (arith, s));
      far = made.others;
      near = λ plain w d. elim (Bool-cases ((w / 2 ^ 21 % 2 ^ 27) == (virt / 2 ^ 21 % 2 ^ 27))) [
        | inl s ↦
            gone w (ground (arith, s))
            ∙ sym (absent_directory root place T virt pdpt pd way huge plain w (ground (arith, s)))
        | inr n ↦ made.others w (ground (arith, n))
      ];
    }

-- The entry of the page table is cleared.
unmap_page :
    (root : ℕ) (place : Place) (T : Tables) (virt pdpt pd pt : ℕ)
    → Reached root place T virt pdpt pd
    → links 0 (T pd (pd_index virt)) ≡ true
    → page_address (T pd (pd_index virt)) ≡ pt
    → Unmapped root place T (update T pt (update (T pt) (pt_index virt) 0)) virt
unfolding translate
unmap_page root place T virt pdpt pd pt way l e =
    let p = pml4_index virt ∷ pdpt_index virt ∷ pd_index virt ∷ [] in
    let at' : place pt ≡ some (0, p) =
      ap place (sym e)
      ∙ way.tree.linked pd (pd_index virt) 0 (pml4_index virt ∷ pdpt_index virt ∷ []) way.pd_at l in
    let T' = update T pt (update (T pt) (pt_index virt) 0) in
    let others : (w : ℕ)
        → w / 2 ^ 12 % 2 ^ 36 ≢ virt / 2 ^ 12 % 2 ^ 36
        → lookup T' 3 root (path w) ≡ lookup T 3 root (path w) =
      λ w d.
        write_elsewhere root place T pt (pt_index virt) 0 0 p (path w) way.tree at'
          (λ q. other_path virt w q d) in
    record {
      tree =
          write-IsTree root place T pt (pt_index virt) 0 0 p way.tree at'
            (λ m z. absurd (omega (arith, z)));
      here = λ w s.
          ap (lookup T' 3 root) (same_path virt w s)
          ∙ page_seen root place T virt pdpt pd pt 0 way at' l e;
      far = λ w d. others w (λ s. d (omega (arith, s)));
      near = λ plain w d. others w d;
    }

-- What `vmm_unmap` writes, by what it finds.
unmap_missing :
    (pml4 virt : ℕ) (v : Vmm) → find_pd v.tables pml4 virt ≡ 0 → vmm_unmap pml4 virt v ≡ v
unfolding vmm_unmap
unmap_missing pml4 virt v h = ground (arith, h)

unmap_directory :
    (pml4 virt pd : ℕ) (v : Vmm)
    → find_pd v.tables pml4 virt ≡ pd
    → pd ≢ 0
    → is_huge (v.tables pd (pd_index virt)) ≡ true
    → vmm_unmap pml4 virt v ≡ record v { tables = set_pd v.tables pd virt 0 }
unfolding vmm_unmap write_entry
unmap_directory pml4 virt pd v e ne h = rw e (ground (arith, ne, h))

unmap_table :
    (pml4 virt pd : ℕ) (v : Vmm)
    → find_pd v.tables pml4 virt ≡ pd
    → pd ≢ 0
    → is_huge (v.tables pd (pd_index virt)) ≡ false
    → let pt = get_existing_table v.tables pd (pd_index virt) in
      vmm_unmap pml4 virt v ≡ (
        if pt == 0
        then v
        else record v { tables = update v.tables pt (update (v.tables pt) (pt_index virt) 0) })
unfolding vmm_unmap write_entry
unmap_table pml4 virt pd v e ne h = rw e (ground (arith, ne, h))

-- In the page directory that was reached.
unmap-Reached :
    (root : ℕ) (place : Place) (v : Vmm) (virt pdpt pd : ℕ)
    → find_pd v.tables root virt ≡ pd
    → pd ≢ 0
    → Reached root place v.tables virt pdpt pd
    → Unmapped root place v.tables (vmm_unmap root virt v).tables virt
unfolding translate
unmap-Reached root place v virt pdpt pd e ne way =
    let T = v.tables in
    let i = pd_index virt in
    elim (Bool-cases (is_huge (T pd i))) [
      | inl huge ↦
          rw (unmap_directory root virt pd v e ne huge)
            (unmap_huge root place T virt pdpt pd way huge)
      | inr page ↦
          rw (unmap_table root virt pd v e ne page) (elim (Bool-cases (is_present (T pd i))) [
            | inl h ↦
                let l : links 0 (T pd i) ≡ true = ground (arith, h, page) in
                let found =
                  existing root place T pd i 0 (pml4_index virt ∷ pdpt_index virt ∷ []) way.tree
                    way.pd_at l in
                rw (==_of_ne (get_existing_table T pd i) 0 found.1) (
                  unmap_page root place T virt pdpt pd (get_existing_table T pd i) way l
                    (sym found.0))
            | inr h ↦ rw (not_existing T pd i h) (
                unmap_nothing root place T virt way.tree (
                  lookup-Reached root place T virt pdpt pd (i ∷ pt_index virt ∷ []) way
                  ∙ lookup_absent T 0 pd i (pt_index virt ∷ []) h))
          ])
    ]

-- `vmm_unmap` takes the page of an address out of the tree.
pub vmm_unmap-Unmapped :
    (root : ℕ) (place : Place) (v : Vmm) (virt : ℕ)
    → IsTree root place v.tables
    → Unmapped root place v.tables (vmm_unmap root virt v).tables virt
unfolding translate
vmm_unmap-Unmapped root place v virt tree = elim (walk root place v.tables virt tree) [
  | missing e gone ↦
      rw (unmap_missing root virt v e)
        (unmap_nothing root place v.tables virt tree (gone (pd_index virt ∷ pt_index virt ∷ [])))
  | reached pdpt pd e ne way ↦ unmap-Reached root place v virt pdpt pd e ne way
]
