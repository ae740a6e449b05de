-- ===== src/Vmm/Create.antt =====
-- src/kernel/vmm.c: `vmm_create_address_space` shares the first 512 GiB.
use zoho_os.Prelude.{
  ℕ, suc, ◌<◌, ◌≡◌, ◌≢◌, refl, sym, ap, ◌∙◌, List, [], ◌∷◌, ◌++◌, none, some, arith, ◌==◌,
  if◌then◌else◌, Bool-cases, inl, inr, update,
}
use zoho_os.Pmm.{Pmm, pmm_alloc_frame, pmm_get_free_count}
use zoho_os.Vmm.{
  Vmm, Tables, is_present, page_address, pml4_index, pdpt_index, pd_index, pt_index,
  vmm_create_address_space, write_entry,
}
use zoho_os.Vmm.Lookup.{lookup, lookup_names, lookup_absent, links, path, translate}
use zoho_os.Vmm.Tree.{Place, IsTree, IsBacked, lookup_agree, ne_of_place, placed_old}
use zoho_os.Vmm.Ensure.{Fresh, alloc-Fresh}

-- The tables with a new root `n`, whose entry 0 is that of `current`.
abbrev with_root : Tables → ℕ → ℕ → Tables
with_root T current n =
    update (update T n (λ i. 0)) n
      (update (update T n (λ i. 0) n) 0 (update T n (λ i. 0) current 0))

-- What a new address space `new` is, next to the one that `vmm_init` found.
pub record Created (place : Place) (v v' : Vmm) (new : ℕ) : Type 0 where
  pub not_null : new ≢ 0
  pub unplaced : place new ≡ none
  pub shared :
      (w : ℕ) → pml4_index w ≡ 0 → translate v'.tables new w ≡ translate v.tables v.current_pml4 w
  pub empty : (w : ℕ) → pml4_index w ≢ 0 → translate v'.tables new w ≡ none
  pub others : (w : ℕ) → translate v'.tables v.current_pml4 w ≡ translate v.tables v.current_pml4 w
  pub tree : IsTree v.current_pml4 place v'.tables
  pub backed : IsBacked place v'.pmm

create_eq :
    (v : Vmm)
    → (pmm_alloc_frame v.pmm).0 ≢ 0
    → vmm_create_address_space v ≡ (
      (pmm_alloc_frame v.pmm).0,
      record v {
        pmm = (pmm_alloc_frame v.pmm).1;
        tables = with_root v.tables v.current_pml4 (pmm_alloc_frame v.pmm).0;
      },
    )
unfolding vmm_create_address_space write_entry
create_eq v ne = ground (arith, ne)

with_root_old : (T : Tables) (current n u j : ℕ) → u ≢ n → with_root T current n u j ≡ T u j
with_root_old T current n u j ne = ground (arith, ne)

with_root_new :
    (T : Tables) (current n i : ℕ)
    → current ≢ n
    → with_root T current n n i ≡ (if i == 0 then T current 0 else 0)
with_root_new T current n i ne = ground (arith, ne)

module _ (current n : ℕ) (place : Place) (T : Tables) (tree : IsTree current place T)
    (un : place n ≡ none) where
  apart : (u : ℕ) (x : ℕ × List ℕ) → place u ≡ some x → u ≢ n
  apart u x e = ne_of_place place u n x e un

  -- The tables that were there are as before.
  old_tables :
      (k u : ℕ) (p q : List ℕ)
      → place u ≡ some (k, p)
      → lookup (with_root T current n) k u q ≡ lookup T k u q
  old_tables k u p q at' =
      lookup_agree current place T (with_root T current n) tree (p ++ q)
        (λ x m j r s h e. with_root_old T current n x j (apart x (m, r) h)) k u p q at' refl

  old-IsTree : IsTree current place (with_root T current n)
  old-IsTree = record {
    top = tree.top;
    null = tree.null;
    linked = λ t i k p at' l.
        let e : with_root T current n t i ≡ T t i =
          with_root_old T current n t i (apart t (suc k, p) at') in
        rw e (tree.linked t i k p at' (sym (ap (links k) e) ∙ l));
  }

  new_shared :
      (is : List ℕ) → lookup (with_root T current n) 3 n (0 ∷ is) ≡ lookup T 3 current (0 ∷ is)
  new_shared is =
      let e : with_root T current n n 0 ≡ T current 0 =
        with_root_new T current n 0 (apart current (3, []) tree.top) in
      elim (Bool-cases (is_present (T current 0))) [
        | inl h ↦
            let u = page_address (T current 0) in
            lookup_names (with_root T current n) 2 n 0 u is (ap (λ x. is_present x) e ∙ h)
              (ap (λ x. page_address x) e)
            ∙ old_tables 2 u (0 ∷ []) is (tree.linked current 0 2 [] tree.top h)
            ∙ sym (lookup_names T 2 current 0 u is h refl)
        | inr h ↦
            lookup_absent (with_root T current n) 2 n 0 is (ap (λ x. is_present x) e ∙ h)
            ∙ sym (lookup_absent T 2 current 0 is h)
      ]

  new_empty : (i : ℕ) (is : List ℕ) → i ≢ 0 → lookup (with_root T current n) 3 n (i ∷ is) ≡ none
  new_empty i is ne =
      let e : with_root T current n n i ≡ (if i == 0 then T current 0 else 0) =
        with_root_new T current n i (apart current (3, []) tree.top) in
      lookup_absent (with_root T current n) 2 n i is (ground (arith, e, ne))

-- A new address space is backed as the old ones are.
still-IsBacked : (place : Place) (p q : Pmm) (n : ℕ) → Fresh place p q n → IsBacked place q
still-IsBacked place p q n fresh =
    let b = fresh.backed (3, []) in
    record {
      valid = b.valid;
      aligned = b.aligned;
      no_zero = b.no_zero;
      in_use = λ t x e. b.in_use t x (placed_old place t n x (3, []) e fresh.unplaced);
    }

-- With a frame left, `vmm_create_address_space` makes a root that is no table yet, maps what the
-- current address space maps in its first 512 GiB and nothing else, and changes no translation there.
pub vmm_create_address_space-Created :
    (place : Place) (v : Vmm)
    → IsTree v.current_pml4 place v.tables
    → IsBacked place v.pmm
    → 0 < pmm_get_free_count v.pmm
    → Created place v (vmm_create_address_space v).1 (vmm_create_address_space v).0
unfolding translate
vmm_create_address_space-Created place v tree b enough =
    let c = v.current_pml4 in
    let n = (pmm_alloc_frame v.pmm).0 in
    let fresh = alloc-Fresh place v.pmm b enough in
    let un = fresh.unplaced in
    rw (create_eq v fresh.not_null) (record {
      not_null = fresh.not_null;
      unplaced = un;
      shared = λ w e.
          rw e
            (new_shared c n place v.tables tree un (pdpt_index w ∷ pd_index w ∷ pt_index w ∷ []));
      empty = λ w ne.
          new_empty c n place v.tables tree un (pml4_index w)
            (pdpt_index w ∷ pd_index w ∷ pt_index w ∷ []) ne;
      others = λ w. old_tables c n place v.tables tree un 3 c [] (path w) tree.top;
      tree = old-IsTree c n place v.tables tree un;
      backed = still-IsBacked place v.pmm (pmm_alloc_frame v.pmm).1 n fresh;
    })
