-- ===== src/Vmm/Huge.antt =====
-- src/kernel/vmm.c: `vmm_map` of a huge page of 2 MiB.
use zoho_os.Prelude.{
  ℕ, ◌+◌, ◌-◌, ◌*◌, ◌/◌, ◌%◌, ◌^◌, ◌<◌, ◌≡◌, ◌≢◌, refl, ap, ◌∙◌, bit_or, true, false, List, [], ◌∷◌,
  some, arith, update, update_ne, update_self,
}
use zoho_os.Bits.Fields.{bit_or-one}
use zoho_os.Pmm.{pmm_get_free_count}
use zoho_os.Vmm.{
  Vmm, Tables, is_present, is_huge, huge_address, huge_entry, pml4_index, pdpt_index, pd_index,
  pt_index, ensure_next_table, map_in, vmm_map, write_entry,
}
use zoho_os.Vmm.Lookup.{lookup, lookup_huge, links, path, path-page, translate}
use zoho_os.Vmm.Tree.{Place, IsTree, IsBacked, write-IsTree, ne_of_place}
use zoho_os.Vmm.Entries.{huge_entry_eq, flags_one}
use zoho_os.Vmm.Descend.{
  Reached, descend, vmm_map_goes_on, Reached-keep, write_elsewhere, lookup-Reached,
}

-- An address of another huge page has another path.
other_directory :
    (v w : ℕ) (q : List ℕ)
    → w / 2 ^ 21 % 2 ^ 27 ≢ v / 2 ^ 21 % 2 ^ 27
    → path w ≢ pml4_index v ∷ pdpt_index v ∷ pd_index v ∷ q
other_directory v w q ne e =
    let a : pml4_index w ≡ pml4_index v = ground (arith, e) in
    let b : pdpt_index w ≡ pdpt_index v = ground (arith, e) in
    let c : pd_index w ≡ pd_index v = ground (arith, e) in ne ((path-page v w a b c).0)

-- An address of the same huge page has the same path, but for its last index.
pub same_directory :
    (v w : ℕ)
    → w / 2 ^ 21 % 2 ^ 27 ≡ v / 2 ^ 21 % 2 ^ 27
    → path w ≡ pml4_index v ∷ pdpt_index v ∷ pd_index v ∷ pt_index w ∷ []
same_directory v w e =
    let a : pml4_index w ≡ pml4_index v = omega (arith, e) in
    let b : pdpt_index w ≡ pdpt_index v = omega (arith, e) in
    let c : pd_index w ≡ pd_index v = omega (arith, e) in rw a (rw b (rw c refl))

-- The memory after a write to the entry of a page directory.
abbrev pub set_pd : Tables → ℕ → ℕ → ℕ → Tables
set_pd T pd virt e = update T pd (update (T pd) (pd_index virt) e)

-- Where the entry names no table, the paths through it end there, and no other path changes.
pub record Directed (root : ℕ) (place : Place) (T : Tables) (virt pd e : ℕ) : Type 0 where
  pub tree : IsTree root place (set_pd T pd virt e)
  pub wrote : set_pd T pd virt e pd (pd_index virt) ≡ e
  pub here :
      (w : ℕ)
      → w / 2 ^ 21 % 2 ^ 27 ≡ virt / 2 ^ 21 % 2 ^ 27
      → lookup (set_pd T pd virt e) 3 root (path w)
        ≡ lookup (set_pd T pd virt e) 1 pd (pd_index virt ∷ pt_index w ∷ [])
  pub others :
      (w : ℕ)
      → w / 2 ^ 21 % 2 ^ 27 ≢ virt / 2 ^ 21 % 2 ^ 27
      → lookup (set_pd T pd virt e) 3 root (path w) ≡ lookup T 3 root (path w)

pub set_pd-Directed :
    (root : ℕ) (place : Place) (T : Tables) (virt pdpt pd e : ℕ)
    → Reached root place T virt pdpt pd
    → links 0 e ≡ false
    → Directed root place T virt pd e
unfolding lookup
set_pd-Directed root place T virt pdpt pd e way plain =
    let p = pml4_index virt ∷ pdpt_index virt ∷ [] in
    let T' = set_pd T pd virt e in
    let tree : IsTree root place T' =
      write-IsTree root place T pd (pd_index virt) e 1 p way.tree way.pd_at
        (λ m z. ap (λ k. links k e) {x = m} {y = 0} (omega (arith, z)) ∙ plain) in
    let way' =
      Reached-keep root place place T T' virt pdpt pd way tree (λ u x h. h)
        (ap (λ g. g (pml4_index virt))
          (update_ne T pd root (update (T pd) (pd_index virt) e)
            (λ z. ground (arith, ap place z, way.tree.top, way.pd_at))))
        (ap (λ g. g (pdpt_index virt))
          (update_ne T pd pdpt (update (T pd) (pd_index virt) e)
            (λ z. ground (arith, ap place z, way.pdpt_at, way.pd_at)))) in
    record {
      tree = tree;
      wrote =
          ap (λ g. g (pd_index virt)) (update_self T pd (update (T pd) (pd_index virt) e))
          ∙ update_self (T pd) (pd_index virt) e;
      here = λ w s.
          ap (lookup T' 3 root) (same_directory virt w s)
          ∙ lookup-Reached root place T' virt pdpt pd (pd_index virt ∷ pt_index w ∷ []) way';
      others = λ w d.
          write_elsewhere root place T pd (pd_index virt) e 1 p (path w) way.tree way.pd_at
            (λ q. other_directory virt w q d);
    }

-- The entry of a huge page.
huge_entry_fields :
    (phys flags : ℕ)
    → flags < 2 ^ 12
    → is_huge flags ≡ true
    → (links 0 (huge_entry phys flags) ≡ false)
      × (is_present (huge_entry phys flags) ≡ true)
      × (huge_address (huge_entry phys flags) ≡ huge_address phys)
      × (huge_entry phys flags % 2 ^ 12 ≡ bit_or flags 1)
huge_entry_fields phys flags h big =
    let f = bit_or flags 1 in
    let one : f ≡ flags - flags % 2 + 1 = bit_or-one flags in
    let small : f < 2 ^ 12 = flags_one flags h in
    let e : huge_entry phys flags ≡ huge_address phys + f = huge_entry_eq phys flags h in
    let bit : flags / 2 ^ 7 % 2 ≡ 1 = ground (arith, big) in
    let present : huge_entry phys flags % 2 ≡ 1 = omega (arith, e, one) in
    let huge : huge_entry phys flags / 2 ^ 7 % 2 ≡ 1 = omega (arith, e, one, bit, h) in
    (
      ground (arith, huge),
      ground (arith, present),
      omega (arith, e, small),
      omega (arith, e, small),
    )

-- What a mapping of the huge page of `virt` does.
pub record MappedHuge (root : ℕ) (place : Place) (v v' : Vmm) (virt phys flags : ℕ) : Type 0 where
  pub tree : IsTree root place v'.tables
  pub backed : IsBacked place v'.pmm
  pub here :
      (w : ℕ)
      → w / 2 ^ 21 % 2 ^ 27 ≡ virt / 2 ^ 21 % 2 ^ 27
      → translate v'.tables root w ≡ some (huge_address phys + pt_index w * 2 ^ 12, bit_or flags 1)
  pub others :
      (w : ℕ)
      → w / 2 ^ 21 % 2 ^ 27 ≢ virt / 2 ^ 21 % 2 ^ 27
      → translate v'.tables root w ≡ translate v.tables root w

map_in_huge :
    (pd virt phys flags : ℕ) (v : Vmm)
    → is_huge flags ≡ true
    → map_in pd virt phys flags v
      ≡ record v { tables = set_pd v.tables pd virt (huge_entry phys flags) }
unfolding map_in write_entry
map_in_huge pd virt phys flags v h = ground (arith, h)

-- `vmm_map` with flags below 2 ^ 12 that ask for a huge page, with two frames left: its 512 pages get their new translations, no other
-- one changes, and the tables are a tree as before.
pub vmm_map-MappedHuge :
    (root : ℕ) (place : Place) (v : Vmm) (virt phys flags : ℕ)
    → IsTree root place v.tables
    → IsBacked place v.pmm
    → 1 < pmm_get_free_count v.pmm
    → flags < 2 ^ 12
    → is_huge flags ≡ true
    → (place' : Place) × MappedHuge root place' v (vmm_map root virt phys flags v) virt phys flags
unfolding translate
vmm_map-MappedHuge root place v virt phys flags tree b enough small h =
    let pdpt = (ensure_next_table root (pml4_index virt) v).0 in
    let v₁ = (ensure_next_table root (pml4_index virt) v).1 in
    let pd = (ensure_next_table pdpt (pdpt_index virt) v₁).0 in
    let v₂ = (ensure_next_table pdpt (pdpt_index virt) v₁).1 in
    let e = huge_entry phys flags in
    let (place₂, d) = descend root place v virt tree b enough in
    let fields = huge_entry_fields phys flags small h in
    let made = set_pd-Directed root place₂ v₂.tables virt pdpt pd e d.way fields.0 in
    let T' = set_pd v₂.tables pd virt e in
    rw
      (vmm_map_goes_on root virt phys flags pdpt pd v v₁ v₂ refl refl
        (ne_of_place place₂ pdpt 0 (2, pml4_index virt ∷ []) d.way.pdpt_at d.way.tree.null)
        (ne_of_place place₂ pd 0 (1, pml4_index virt ∷ pdpt_index virt ∷ []) d.way.pd_at
          d.way.tree.null))
      (rw (map_in_huge pd virt phys flags v₂ h) (
        place₂,
        record {
          tree = made.tree;
          backed = d.backed;
          here = λ w s.
              made.here w s
              ∙ lookup_huge T' 0 pd (pd_index virt) (pt_index w)
                  (ap (links 0) made.wrote ∙ fields.0)
                  (ap (λ x. is_present x) made.wrote ∙ fields.1)
              ∙ ap (λ x. some (huge_address x + pt_index w * 2 ^ 12, x % 2 ^ 12)) made.wrote
              ∙ (λ i. some (fields.2 i + pt_index w * 2 ^ 12, fields.3 i));
          others = λ w ne. made.others w ne ∙ d.lookups (path w);
        },
      ))
