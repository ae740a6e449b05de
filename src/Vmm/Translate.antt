-- ===== src/Vmm/Translate.antt =====
-- src/kernel/vmm.c: `vmm_get_phys` and `vmm_get_flags` against the translation.
use zoho_os.Prelude.{
  ℕ, ◌+◌, ◌*◌, ◌/◌, ◌%◌, ◌^◌, ◌≡◌, ◌≢◌, refl, sym, ap, ◌∙◌, bit_or, true, false, List, [], ◌∷◌,
  Option, none, some, arith, Bool-cases, inl, inr,
}
use zoho_os.Bits.Fields.{bit_or-add}
use zoho_os.Vmm.{
  Tables, is_present, is_huge, page_address, huge_address, pml4_index, pdpt_index, pd_index,
  pt_index,
}
use zoho_os.Vmm.Lookup.{lookup, lookup_names, lookup_huge, links, leaf, translate}
use zoho_os.Vmm.Tree.{Place, IsTree}
use zoho_os.Vmm.{get_existing_table, find_pd, vmm_get_phys, vmm_get_flags}
use zoho_os.Vmm.Lookup.{lookup_absent}
use zoho_os.Vmm.Descend.{Reached, lookup-Reached}
use zoho_os.Vmm.Walk.{existing, not_existing, missing, reached, walk}

-- What the two functions answer for an address, against its translation: for a mapped page its address
-- and its flags, with the lowest one set; for another page flags without the lowest one.
abbrev pub Answers : Option (ℕ × ℕ) → ℕ → ℕ → ℕ → Type 0
Answers none virt phys flags = flags % 2 ≡ 0
Answers (some (f, fl)) virt phys flags = (phys ≡ f + virt % 2 ^ 12) × (flags ≡ fl) × (fl % 2 ≡ 1)

or_page : (e x : ℕ) → bit_or (page_address e) (x % 2 ^ 12) ≡ page_address e + x % 2 ^ 12
or_page e x =
    ap (λ (y : ℕ). bit_or y (x % 2 ^ 12)) (omega arith)
    ∙ bit_or-add 12 (e / 2 ^ 12) (x % 2 ^ 12) (omega arith)
    ∙ omega arith

or_huge :
    (e x : ℕ)
    → bit_or (huge_address e) (x % 2 ^ 21) ≡ huge_address e + pt_index x * 2 ^ 12 + x % 2 ^ 12
or_huge e x =
    ap (λ (y : ℕ). bit_or y (x % 2 ^ 21)) (omega arith)
    ∙ bit_or-add 21 (e / 2 ^ 21) (x % 2 ^ 21) (omega arith)
    ∙ omega arith

translate_missing :
    (T : Tables) (root virt : ℕ)
    → ((q : List ℕ) → lookup T 3 root (pml4_index virt ∷ pdpt_index virt ∷ q) ≡ none)
    → translate T root virt ≡ none
unfolding translate
translate_missing T root virt gone = gone (pd_index virt ∷ pt_index virt ∷ [])

translate-Reached :
    (root : ℕ) (place : Place) (T : Tables) (virt pdpt pd : ℕ)
    → Reached root place T virt pdpt pd
    → translate T root virt ≡ lookup T 1 pd (pd_index virt ∷ pt_index virt ∷ [])
unfolding translate
translate-Reached root place T virt pdpt pd way =
    lookup-Reached root place T virt pdpt pd (pd_index virt ∷ pt_index virt ∷ []) way

get_missing : (T : Tables) (pml4 virt : ℕ) → find_pd T pml4 virt ≡ 0 → vmm_get_flags T pml4 virt ≡ 0
unfolding vmm_get_flags
get_missing T pml4 virt h = ground (arith, h)

get_huge :
    (T : Tables) (pml4 virt pd : ℕ)
    → find_pd T pml4 virt ≡ pd
    → pd ≢ 0
    → is_huge (T pd (pd_index virt)) ≡ true
    → (vmm_get_phys T pml4 virt ≡ bit_or (huge_address (T pd (pd_index virt))) (virt % 2 ^ 21))
      × (vmm_get_flags T pml4 virt ≡ T pd (pd_index virt) % 2 ^ 12)
unfolding vmm_get_phys vmm_get_flags
get_huge T pml4 virt pd e ne h = (rw e (ground (arith, ne, h)), rw e (ground (arith, ne, h)))

get_page :
    (T : Tables) (pml4 virt pd pt : ℕ)
    → find_pd T pml4 virt ≡ pd
    → pd ≢ 0
    → is_huge (T pd (pd_index virt)) ≡ false
    → get_existing_table T pd (pd_index virt) ≡ pt
    → pt ≢ 0
    → (vmm_get_phys T pml4 virt ≡ bit_or (page_address (T pt (pt_index virt))) (virt % 2 ^ 12))
      × (vmm_get_flags T pml4 virt ≡ T pt (pt_index virt) % 2 ^ 12)
unfolding vmm_get_phys vmm_get_flags
get_page T pml4 virt pd pt e ne h f nt =
    (rw e (rw f (ground (arith, ne, h, nt))), rw e (rw f (ground (arith, ne, h, nt))))

get_nothing :
    (T : Tables) (pml4 virt pd : ℕ)
    → find_pd T pml4 virt ≡ pd
    → pd ≢ 0
    → is_huge (T pd (pd_index virt)) ≡ false
    → get_existing_table T pd (pd_index virt) ≡ 0
    → vmm_get_flags T pml4 virt ≡ 0
unfolding vmm_get_flags
get_nothing T pml4 virt pd e ne h f = rw e (rw f (ground (arith, ne, h)))

even : (e : ℕ) → is_present e ≡ false → e % 2 ^ 12 % 2 ≡ 0
even e h = ground (arith, h)

odd : (e : ℕ) → is_present e ≡ true → e % 2 ^ 12 % 2 ≡ 1
odd e h = ground (arith, h)

Answers-leaf :
    (e virt phys flags : ℕ)
    → phys ≡ bit_or (page_address e) (virt % 2 ^ 12)
    → flags ≡ e % 2 ^ 12
    → Answers (leaf e) virt phys flags
Answers-leaf e virt phys flags p f = elim (Bool-cases (is_present e)) [
  | inl h ↦ rw h (p ∙ or_page e virt, f, odd e h)
  | inr h ↦ rw h (ap (λ x. x % 2) f ∙ even e h)
]

Answers-huge :
    (root : ℕ) (place : Place) (T : Tables) (virt pdpt pd : ℕ)
    → find_pd T root virt ≡ pd
    → pd ≢ 0
    → Reached root place T virt pdpt pd
    → is_huge (T pd (pd_index virt)) ≡ true
    → Answers (translate T root virt) virt (vmm_get_phys T root virt) (vmm_get_flags T root virt)
Answers-huge root place T virt pdpt pd e ne way huge =
    let i = pd_index virt in
    let got = get_huge T root virt pd e ne huge in
    let t = translate-Reached root place T virt pdpt pd way in
    elim (Bool-cases (is_present (T pd i))) [
      | inl h ↦
          rw (t ∙ lookup_huge T 0 pd i (pt_index virt) (ground (arith, huge)) h)
            (got.0 ∙ or_huge (T pd i) virt, got.1, odd (T pd i) h)
      | inr h ↦
          rw (t ∙ lookup_absent T 0 pd i (pt_index virt ∷ []) h)
            (ap (λ x. x % 2) got.1 ∙ even (T pd i) h)
    ]

lookup-leaf : (T : Tables) (pt i : ℕ) → lookup T 0 pt (i ∷ []) ≡ leaf (T pt i)
unfolding lookup
lookup-leaf T pt i = refl

Answers-page :
    (root : ℕ) (place : Place) (T : Tables) (virt pdpt pd : ℕ)
    → find_pd T root virt ≡ pd
    → pd ≢ 0
    → Reached root place T virt pdpt pd
    → is_huge (T pd (pd_index virt)) ≡ false
    → Answers (translate T root virt) virt (vmm_get_phys T root virt) (vmm_get_flags T root virt)
Answers-page root place T virt pdpt pd e ne way page =
    let i = pd_index virt in
    let t = translate-Reached root place T virt pdpt pd way in
    elim (Bool-cases (is_present (T pd i))) [
      | inl h ↦
          let l : links 0 (T pd i) ≡ true = ground (arith, h, page) in
          let found =
            existing root place T pd i 0 (pml4_index virt ∷ pdpt_index virt ∷ []) way.tree way.pd_at
              l in
          let pt = get_existing_table T pd i in
          let got = get_page T root virt pd pt e ne page refl found.1 in
          rw
            (t
              ∙ lookup_names T 0 pd i pt (pt_index virt ∷ []) l (sym found.0)
              ∙ lookup-leaf T pt (pt_index virt))
            (Answers-leaf (T pt (pt_index virt)) virt (vmm_get_phys T root virt)
              (vmm_get_flags T root virt) got.0 got.1)
      | inr h ↦
          rw (t ∙ lookup_absent T 0 pd i (pt_index virt ∷ []) h)
            (ap (λ x. x % 2) (get_nothing T root virt pd e ne page (not_existing T pd i h)))
    ]

-- On a tree of tables, `vmm_get_phys` and `vmm_get_flags` tell the translation of an address: its page
-- with the offset in it and the flags, the lowest one set, if it is mapped; else the lowest flag is not
-- set.
pub vmm_get-Answers :
    (root : ℕ) (place : Place) (T : Tables) (virt : ℕ)
    → IsTree root place T
    → Answers (translate T root virt) virt (vmm_get_phys T root virt) (vmm_get_flags T root virt)
vmm_get-Answers root place T virt tree = elim (walk root place T virt tree) [
  | missing e gone ↦
      rw (translate_missing T root virt gone) (ap (λ x. x % 2) (get_missing T root virt e))
  | reached pdpt pd e ne way ↦ elim (Bool-cases (is_huge (T pd (pd_index virt)))) [
    | inl h ↦ Answers-huge root place T virt pdpt pd e ne way h
    | inr h ↦ Answers-page root place T virt pdpt pd e ne way h
  ]
]
