-- ===== src/Vmm/Map.antt =====
-- src/kernel/vmm.c: `vmm_map` of a page of 4 KiB.
use zoho_os.Prelude.{
  ℕ, suc, ◌+◌, ◌*◌, ◌/◌, ◌%◌, ◌^◌, ◌<◌, ◌≡◌, ◌≢◌, refl, sym, ap, ◌∙◌, bit_or, true, false, List, [],
  ◌∷◌, ◌++◌, Option, some, arith, Bool-cases, inl, inr, update, update_ne, update_self,
}
use zoho_os.Pmm.{pmm_get_free_count}
use zoho_os.Vmm.{
  Vmm, Tables, is_present, is_huge, page_address, huge_address, page_entry, pml4_index, pdpt_index,
  pd_index, pt_index, ensure_next_table, map_in, vmm_map, write_entry,
}
use zoho_os.Vmm.Lookup.{lookup, lookup_names, lookup_huge, links, leaf, path, path-page, translate}
use zoho_os.Vmm.Tree.{Place, IsTree, IsBacked, write-IsTree, ne_of_place, ne_of_level}
use zoho_os.Vmm.Ensure.{ensure_next_table-Ensured}
use zoho_os.Vmm.Entries.{leaf-page_entry}
use zoho_os.Vmm.Descend.{
  Reached, descend, vmm_map_goes_on, Reached-keep, write_elsewhere, lookup-Reached,
}

-- What a mapping of the page of `virt` does: that page has a new translation, no other one changes,
-- and the tables are a tree.
pub record Mapped (root : ℕ) (place : Place) (v v' : Vmm) (virt : ℕ) (page : Option (ℕ × ℕ))
    : Type 0 where
  pub tree : IsTree root place v'.tables
  pub backed : IsBacked place v'.pmm
  pub here :
      (w : ℕ) → w / 2 ^ 12 % 2 ^ 36 ≡ virt / 2 ^ 12 % 2 ^ 36 → translate v'.tables root w ≡ page
  pub others :
      (w : ℕ)
      → w / 2 ^ 12 % 2 ^ 36 ≢ virt / 2 ^ 12 % 2 ^ 36
      → translate v'.tables root w ≡ translate v.tables root w

-- An address of the same page has the same path.
pub same_path : (v w : ℕ) → w / 2 ^ 12 % 2 ^ 36 ≡ v / 2 ^ 12 % 2 ^ 36 → path w ≡ path v
same_path v w e =
    let a : pml4_index w ≡ pml4_index v = omega (arith, e) in
    let b : pdpt_index w ≡ pdpt_index v = omega (arith, e) in
    let c : pd_index w ≡ pd_index v = omega (arith, e) in
    let d : pt_index w ≡ pt_index v = omega (arith, e) in rw a (rw b (rw c (rw d refl)))

-- An address of another page has another path.
pub other_path :
    (v w : ℕ) (q : List ℕ)
    → w / 2 ^ 12 % 2 ^ 36 ≢ v / 2 ^ 12 % 2 ^ 36
    → path w ≢ pml4_index v ∷ pdpt_index v ∷ pd_index v ∷ pt_index v ∷ q
other_path v w q ne e =
    let a : pml4_index w ≡ pml4_index v = ground (arith, e) in
    let b : pdpt_index w ≡ pdpt_index v = ground (arith, e) in
    let c : pd_index w ≡ pd_index v = ground (arith, e) in
    let d : pt_index w ≡ pt_index v = ground (arith, e) in ne ((path-page v w a b c).1 d)

-- An entry that the code takes for the name of a table is no huge page, if none is mapped there.
pub no_huge :
    (root : ℕ) (place : Place) (T : Tables) (virt pdpt pd : ℕ)
    → Reached root place T virt pdpt pd
    → ((f fl : ℕ) → translate T root virt ≡ some (f, fl) → is_huge fl ≡ false)
    → is_present (T pd (pd_index virt)) ≡ true
    → links 0 (T pd (pd_index virt)) ≡ true
unfolding translate
no_huge root place T virt pdpt pd way plain h = elim (Bool-cases (links 0 (T pd (pd_index virt)))) [
  | inl l ↦ l
  | inr l ↦
      let e = T pd (pd_index virt) in
      let f = huge_address e + pt_index virt * 2 ^ 12 in
      let p = plain f (e % 2 ^ 12) (
        lookup-Reached root place T virt pdpt pd (pd_index virt ∷ pt_index virt ∷ []) way
        ∙ lookup_huge T 0 pd (pd_index virt) (pt_index virt) l h) in
      let same : e % 2 ^ 12 / 2 ^ 7 % 2 ≡ e / 2 ^ 7 % 2 = omega arith in
      absurd (ground (arith, h, l, p, same))
]

-- An entry that is written to the page table of an address is its page.
pub page_seen :
    (root : ℕ) (place : Place) (T : Tables) (virt pdpt pd pt e : ℕ)
    → Reached root place T virt pdpt pd
    → place pt ≡ some (0, pml4_index virt ∷ pdpt_index virt ∷ pd_index virt ∷ [])
    → links 0 (T pd (pd_index virt)) ≡ true
    → page_address (T pd (pd_index virt)) ≡ pt
    → lookup (update T pt (update (T pt) (pt_index virt) e)) 3 root (path virt) ≡ leaf e
unfolding lookup
page_seen root place T virt pdpt pd pt e way at' l names =
    let p = pml4_index virt ∷ pdpt_index virt ∷ pd_index virt ∷ [] in
    let T' = update T pt (update (T pt) (pt_index virt) e) in
    let apart : (u k : ℕ) (r : List ℕ) → place u ≡ some (suc k, r) → T' u ≡ T u = λ u k r h.
      update_ne T pt u (update (T pt) (pt_index virt) e) (ne_of_level place u pt k r p h at') in
    let way' =
      Reached-keep root place place T T' virt pdpt pd way
        (write-IsTree root place T pt (pt_index virt) e 0 p way.tree at'
          (λ m z. absurd (omega (arith, z))))
        (λ u x h. h) (ap (λ g. g (pml4_index virt)) (apart root 2 [] way.tree.top))
        (ap (λ g. g (pdpt_index virt)) (apart pdpt 1 (pml4_index virt ∷ []) way.pdpt_at)) in
    let same : T' pd (pd_index virt) ≡ T pd (pd_index virt) =
      ap (λ g. g (pd_index virt)) (apart pd 0 (pml4_index virt ∷ pdpt_index virt ∷ []) way.pd_at) in
    let wrote : T' pt (pt_index virt) ≡ e =
      ap (λ g. g (pt_index virt)) (update_self T pt (update (T pt) (pt_index virt) e))
      ∙ update_self (T pt) (pt_index virt) e in
    lookup-Reached root place T' virt pdpt pd (pd_index virt ∷ pt_index virt ∷ []) way'
    ∙ lookup_names T' 0 pd (pd_index virt) pt (pt_index virt ∷ []) (ap (links 0) same ∙ l)
        (ap (λ x. page_address x) same ∙ names)
    ∙ ap leaf wrote

map_in_page :
    (pd virt phys flags : ℕ) (v : Vmm)
    → is_huge flags ≡ false
    → (ensure_next_table pd (pd_index virt) v).0 ≢ 0
    → map_in pd virt phys flags v
      ≡ write_entry
          (ensure_next_table pd (pd_index virt) v).0
          (pt_index virt)
          (page_entry phys flags)
          (ensure_next_table pd (pd_index virt) v).1
unfolding map_in
map_in_page pd virt phys flags v h ne = ground (arith, h, ne)

-- The last part of `vmm_map` for a page, from the page directory on.
map_in-Mapped :
    (root : ℕ) (place : Place) (v : Vmm) (virt phys flags pdpt pd : ℕ)
    → Reached root place v.tables virt pdpt pd
    → IsBacked place v.pmm
    → 0 < pmm_get_free_count v.pmm
    → ((f fl : ℕ) → translate v.tables root virt ≡ some (f, fl) → is_huge fl ≡ false)
    → flags < 2 ^ 12
    → is_huge flags ≡ false
    → (place' : Place) × Mapped root place' v
        (map_in pd virt phys flags v)
        virt
        (some (page_address phys, bit_or flags 1))
unfolding map_in write_entry translate
map_in-Mapped root place v virt phys flags pdpt pd way b enough plain small h =
    let i = pd_index virt in
    let e = page_entry phys flags in
    let p = pml4_index virt ∷ pdpt_index virt ∷ [] in
    let pt = (ensure_next_table pd i v).0 in
    let v₃ = (ensure_next_table pd i v).1 in
    let (place', c) =
      ensure_next_table-Ensured root place v pd i 0 p way.tree b way.pd_at
        (no_huge root place v.tables virt pdpt pd way plain) enough in
    let way₃ =
      Reached-keep root place place' v.tables v₃.tables virt pdpt pd way c.tree c.keeps
        (c.entries root (pml4_index virt) (3, []) way.tree.top way.to_pdpt.0)
        (c.entries pdpt (pdpt_index virt) (2, pml4_index virt ∷ []) way.pdpt_at way.to_pd.0) in
    let tree : IsTree root place' (update v₃.tables pt (update (v₃.tables pt) (pt_index virt) e)) =
      write-IsTree root place' v₃.tables pt (pt_index virt) e 0 (p ++ i ∷ []) c.tree c.placed
        (λ m z. absurd (omega (arith, z))) in
    let ne : pt ≢ 0 = ne_of_place place' pt 0 (0, p ++ i ∷ []) c.placed c.tree.null in
    let result : map_in pd virt phys flags v ≡ write_entry pt (pt_index virt) e v₃ =
      map_in_page pd virt phys flags v h ne in
    rw result (
      place',
      record {
        tree = tree;
        backed = c.backed;
        here = λ w s.
            ap (lookup (update v₃.tables pt (update (v₃.tables pt) (pt_index virt) e)) 3 root)
              (same_path virt w s)
            ∙ page_seen root place' v₃.tables virt pdpt pd pt e way₃ c.placed c.names.0 c.names.1
            ∙ leaf-page_entry phys flags small;
        others = λ w d.
            write_elsewhere root place' v₃.tables pt (pt_index virt) e 0 (p ++ i ∷ []) (path w)
              c.tree c.placed (λ q. other_path virt w q d)
            ∙ c.lookups (path w);
      },
    )

-- `vmm_map` with flags below 2 ^ 12 that ask for a page of 4 KiB, with three frames left, where no
-- huge page is mapped: that page gets its new translation, no other one changes, and the tables are a
-- tree as before.
pub vmm_map-Mapped :
    (root : ℕ) (place : Place) (v : Vmm) (virt phys flags : ℕ)
    → IsTree root place v.tables
    → IsBacked place v.pmm
    → 2 < pmm_get_free_count v.pmm
    → ((f fl : ℕ) → translate v.tables root virt ≡ some (f, fl) → is_huge fl ≡ false)
    → flags < 2 ^ 12
    → is_huge flags ≡ false
    → (place' : Place) × Mapped root place' v
        (vmm_map root virt phys flags v)
        virt
        (some (page_address phys, bit_or flags 1))
unfolding translate
vmm_map-Mapped root place v virt phys flags tree b enough plain small h =
    let pdpt = (ensure_next_table root (pml4_index virt) v).0 in
    let v₁ = (ensure_next_table root (pml4_index virt) v).1 in
    let pd = (ensure_next_table pdpt (pdpt_index virt) v₁).0 in
    let v₂ = (ensure_next_table pdpt (pdpt_index virt) v₁).1 in
    let (place₂, d) = descend root place v virt tree b (omega arith) in
    let (place', m) =
      map_in-Mapped root place₂ v₂ virt phys flags pdpt pd d.way d.backed (omega (arith, d.frames))
        (λ f fl e. plain f fl (sym (d.lookups (path virt)) ∙ e)) small h in
    rw
      (vmm_map_goes_on root virt phys flags pdpt pd v v₁ v₂ refl refl
        (ne_of_place place₂ pdpt 0 (2, pml4_index virt ∷ []) d.way.pdpt_at d.way.tree.null)
        (ne_of_place place₂ pd 0 (1, pml4_index virt ∷ pdpt_index virt ∷ []) d.way.pd_at
          d.way.tree.null))
      (
        place',
        record {
          tree = m.tree;
          backed = m.backed;
          here = m.here;
          others = λ w ne. m.others w ne ∙ d.lookups (path w);
        },
      )
