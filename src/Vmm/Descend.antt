-- ===== src/Vmm/Descend.antt =====
-- src/kernel/vmm.c: the way to the page directory of an address.
use zoho_os.Prelude.{
  ◌==◌, if◌then◌else◌, ℕ, ◌+◌, ◌≤◌, ◌<◌, ◌≡◌, ◌≢◌, refl, ap, ◌∙◌, true, ◌&&◌, List, [], ◌∷◌, ◌++◌,
  some, arith, ◌==◌, Bool-cases, inl, inr, update,
}
use zoho_os.Pmm.{pmm_get_free_count}
use zoho_os.Vmm.{
  Vmm, Tables, is_present, page_address, pml4_index, pdpt_index, ensure_next_table, map_in, vmm_map,
}
use zoho_os.Vmm.Lookup.{lookup, lookup_names}
use zoho_os.Vmm.Tree.{Place, IsTree, IsBacked, lookup_agree}
use zoho_os.Vmm.Ensure.{ensure_next_table-Ensured}

-- A write to one entry is seen on the paths through it alone.
pub write_elsewhere :
    (root : ℕ) (place : Place) (T : Tables) (t i e k : ℕ) (p whole : List ℕ)
    → IsTree root place T
    → place t ≡ some (k, p)
    → ((q : List ℕ) → whole ≢ p ++ i ∷ q)
    → lookup (update T t (update (T t) i e)) 3 root whole ≡ lookup T 3 root whole
write_elsewhere root place T t i e k p whole tree at' off =
    lookup_agree root place T (update T t (update (T t) i e)) tree whole same 3 root [] whole
      tree.top refl
  where
    same :
        (u m j : ℕ) (r q : List ℕ)
        → place u ≡ some (m, r)
        → whole ≡ r ++ j ∷ q
        → update T t (update (T t) i e) u j ≡ T u j
    same u m j r q here on = elim (Bool-cases ((u == t) && (j == i))) [
      | inl both ↦
          let eu : u ≡ t = ground (arith, both) in
          let ej : j ≡ i = ground (arith, both) in
          let er : r ≡ p = ground (arith, ap place eu, here, at') in
          absurd (off q (on ∙ ap (λ x. x ++ j ∷ q) er ∙ ap (λ x. p ++ x ∷ q) ej))
      | inr apart ↦ ground (arith, apart, ap (λ x. T x j))
    ]

-- The tables on the way to the page directory `pd` of an address.
pub record Reached (root : ℕ) (place : Place) (T : Tables) (virt pdpt pd : ℕ) : Type 0 where
  pub tree : IsTree root place T
  pub pdpt_at : place pdpt ≡ some (2, pml4_index virt ∷ [])
  pub pd_at : place pd ≡ some (1, pml4_index virt ∷ pdpt_index virt ∷ [])
  pub to_pdpt :
      (is_present (T root (pml4_index virt)) ≡ true)
      × (page_address (T root (pml4_index virt)) ≡ pdpt)
  pub to_pd :
      (is_present (T pdpt (pdpt_index virt)) ≡ true)
      × (page_address (T pdpt (pdpt_index virt)) ≡ pd)

pub lookup-Reached :
    (root : ℕ) (place : Place) (T : Tables) (virt pdpt pd : ℕ) (q : List ℕ)
    → Reached root place T virt pdpt pd
    → lookup T 3 root (pml4_index virt ∷ pdpt_index virt ∷ q) ≡ lookup T 1 pd q
lookup-Reached root place T virt pdpt pd q r =
    lookup_names T 2 root (pml4_index virt) pdpt (pdpt_index virt ∷ q) r.to_pdpt.0 r.to_pdpt.1
    ∙ lookup_names T 1 pdpt (pdpt_index virt) pd q r.to_pd.0 r.to_pd.1

-- Writes to other entries, in tables that are placed, keep the way.
pub Reached-keep :
    (root : ℕ) (place place' : Place) (T T' : Tables) (virt pdpt pd : ℕ)
    → Reached root place T virt pdpt pd
    → IsTree root place' T'
    → ((u : ℕ) (x : ℕ × List ℕ) → place u ≡ some x → place' u ≡ some x)
    → T' root (pml4_index virt) ≡ T root (pml4_index virt)
    → T' pdpt (pdpt_index virt) ≡ T pdpt (pdpt_index virt)
    → Reached root place' T' virt pdpt pd
Reached-keep root place place' T T' virt pdpt pd r tree keeps e f = record {
  tree = tree;
  pdpt_at = keeps pdpt (2, pml4_index virt ∷ []) r.pdpt_at;
  pd_at = keeps pd (1, pml4_index virt ∷ pdpt_index virt ∷ []) r.pd_at;
  to_pdpt = rw e r.to_pdpt;
  to_pd = rw f r.to_pd;
}

-- What the first two calls of `ensure_next_table` leave.
pub record Descended (root : ℕ) (place : Place) (v v' : Vmm) (virt pdpt pd : ℕ) : Type 0 where
  pub way : Reached root place v'.tables virt pdpt pd
  pub backed : IsBacked place v'.pmm
  pub lookups : (q : List ℕ) → lookup v'.tables 3 root q ≡ lookup v.tables 3 root q
  pub frames : pmm_get_free_count v.pmm ≤ pmm_get_free_count v'.pmm + 2

-- With two frames left, the first two calls of `ensure_next_table` reach the page directory.
pub descend :
    (root : ℕ) (place : Place) (v : Vmm) (virt : ℕ)
    → IsTree root place v.tables
    → IsBacked place v.pmm
    → 1 < pmm_get_free_count v.pmm
    → let (pdpt, v₁) = ensure_next_table root (pml4_index virt) v in
      let (pd, v₂) = ensure_next_table pdpt (pdpt_index virt) v₁ in
      (place' : Place) × Descended root place' v v₂ virt pdpt pd
descend root place v virt tree b enough =
    let i = pml4_index virt in
    let pdpt = (ensure_next_table root i v).0 in
    let v₁ = (ensure_next_table root i v).1 in
    let (place₁, a) =
      ensure_next_table-Ensured root place v root i 2 [] tree b tree.top (λ h. h) (omega arith) in
    let j = pdpt_index virt in
    let (place₂, c) =
      ensure_next_table-Ensured root place₁ v₁ pdpt j 1 (i ∷ []) a.tree a.backed a.placed (λ h. h)
        (omega (arith, a.frames)) in
    (
      place₂,
      record {
        way = record {
          tree = c.tree;
          pdpt_at = c.keeps pdpt (2, i ∷ []) a.placed;
          pd_at = c.placed;
          to_pdpt = rw (c.entries root i (3, []) a.tree.top a.names.0) a.names;
          to_pd = c.names;
        };
        backed = c.backed;
        lookups = λ q. c.lookups q ∙ a.lookups q;
        frames = omega (arith, a.frames, c.frames);
      },
    )

two_tests :
    {A : Type 0} (a b : ℕ) (x y z : A)
    → a ≢ 0
    → b ≢ 0
    → (if a == 0 then x else if b == 0 then y else z) ≡ z
two_tests a b x y z ha hb = ground (arith, ha, hb)

-- Once the tables on the way are there, `vmm_map` goes on in the page directory.
pub vmm_map_goes_on :
    (pml4 virt phys flags pdpt pd : ℕ) (v v₁ v₂ : Vmm)
    → ensure_next_table pml4 (pml4_index virt) v ≡ (pdpt, v₁)
    → ensure_next_table pdpt (pdpt_index virt) v₁ ≡ (pd, v₂)
    → pdpt ≢ 0
    → pd ≢ 0
    → vmm_map pml4 virt phys flags v ≡ map_in pd virt phys flags v₂
unfolding vmm_map
vmm_map_goes_on pml4 virt phys flags pdpt pd v v₁ v₂ e f a b =
    rw e (rw f (two_tests pdpt pd v₁ v₂ (map_in pd virt phys flags v₂) a b))
