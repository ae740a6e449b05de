-- ===== src/Vmm/Entries.antt =====
-- src/kernel/vmm.c: the entries that `vmm_map` writes.
use zoho_os.Prelude.{ℕ, ◌+◌, ◌-◌, ◌*◌, ◌/◌, ◌%◌, ◌^◌, ◌<◌, ◌≡◌, ap, ◌∙◌, bit_or, true, some, arith}
use zoho_os.Bits.Fields.{bit_or-add, bit_or-one}
use zoho_os.Vmm.{is_present, page_address, huge_address, page_entry, huge_entry}
use zoho_os.Vmm.Lookup.{leaf}

or_flags :
    (k base flags : ℕ)
    → flags < 2 ^ k
    → bit_or (bit_or (base * 2 ^ k) flags) 1 ≡ base * 2 ^ k + flags - (base * 2 ^ k + flags) % 2 + 1
or_flags k base flags h =
    ap (λ (x : ℕ). bit_or x 1) (bit_or-add k base flags h) ∙ bit_or-one (base * 2 ^ k + flags)

pub flags_one : (flags : ℕ) → flags < 2 ^ 12 → bit_or flags 1 < 2 ^ 12
flags_one flags h = omega (arith, bit_or-one flags)

-- The entries for a page and for a huge page.
page_entry_eq :
    (phys flags : ℕ) → flags < 2 ^ 12 → page_entry phys flags ≡ page_address phys + bit_or flags 1
page_entry_eq phys flags h =
    ap (λ (x : ℕ). bit_or (bit_or x flags) 1) (omega arith)
    ∙ or_flags 12 (phys / 2 ^ 12) flags h
    ∙ omega (arith, bit_or-one flags)

pub huge_entry_eq :
    (phys flags : ℕ) → flags < 2 ^ 12 → huge_entry phys flags ≡ huge_address phys + bit_or flags 1
huge_entry_eq phys flags h =
    ap (λ (x : ℕ). bit_or (bit_or x flags) 1) (omega arith)
    ∙ or_flags 21 (phys / 2 ^ 21) flags (omega arith)
    ∙ omega (arith, bit_or-one flags)

-- The entry of a page maps it with its flags.
pub leaf-page_entry :
    (phys flags : ℕ)
    → flags < 2 ^ 12
    → leaf (page_entry phys flags) ≡ some (page_address phys, bit_or flags 1)
leaf-page_entry phys flags h =
    let f = bit_or flags 1 in
    let odd : f % 2 ≡ 1 = omega (arith, bit_or-one flags) in
    let small : f < 2 ^ 12 = flags_one flags h in
    let e : page_entry phys flags ≡ page_address phys + f = page_entry_eq phys flags h in
    let present : is_present (page_entry phys flags) ≡ true = ground (arith, e, odd) in
    let address : page_address (page_entry phys flags) ≡ page_address phys =
      omega (arith, e, small) in
    let rest : page_entry phys flags % 2 ^ 12 ≡ f = omega (arith, e, small) in
    ground (arith, present, address, rest)
