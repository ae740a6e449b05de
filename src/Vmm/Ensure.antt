-- ===== src/Vmm/Ensure.antt =====
-- src/kernel/vmm.c: `ensure_next_table` leaves a tree of tables with the next table in it.
use zoho_os.Prelude.{
  ℕ, zero, suc, ◌+◌, ◌/◌, ◌%◌, ◌^◌, ◌≤◌, ◌<◌, ◌≡◌, ◌≢◌, refl, sym, ap, ◌∙◌, subst, bit_or, true,
  false, List, [], ◌∷◌, ◌++◌, none, some, arith, ◌==◌, Bool-cases, Option-cases, Nat-cases, inl,
  inr, update, update_self, update_ne,
}
use zoho_os.Bits.Fields.{bit_or-low, bit_or-one}
use zoho_os.Pmm.{Pmm, pmm_alloc_frame, pmm_get_free_count}
use zoho_os.Pmm.Invariant.{IsAligned, is_free, alloc-IsValid, alloc_eq}
use zoho_os.Pmm.Frames.{Aligned}
use zoho_os.Pmm.Counts.{Allocated, alloc-Allocated}
use zoho_os.Vmm.{Vmm, Tables, is_present, page_address, table_entry, ensure_next_table}
use zoho_os.Vmm.Lookup.{lookup, links}
use zoho_os.Vmm.Tree.{
  Place, IsTree, IsBacked, IsNew, lookup_new, new-IsTree, ne_of_place, placed_old,
}

or_two : (n : ℕ) → n % 8 ≡ 0 → bit_or (n + 1) 2 ≡ n + 3
or_two n h =
    ap (λ (x : ℕ). bit_or x 2) (omega arith)
    ∙ bit_or-low 3 (n / 8) 1 2 (omega arith) (omega arith)
    ∙ omega (arith, h)

or_four : (n : ℕ) → n % 8 ≡ 0 → bit_or (n + 3) 4 ≡ n + 7
or_four n h =
    ap (λ (x : ℕ). bit_or x 4) (omega arith)
    ∙ bit_or-low 3 (n / 8) 3 4 (omega arith) (omega arith)
    ∙ omega (arith, h)

table_entry_eq : (n : ℕ) → n % 8 ≡ 0 → table_entry n ≡ n + 7
table_entry_eq n h =
    ap (λ (x : ℕ). bit_or (bit_or x 2) 4) (bit_or-one n ∙ omega arith)
    ∙ ap (λ (x : ℕ). bit_or x 4) (or_two n h)
    ∙ or_four n h

-- The entry for a new table names it.
table_entry-links :
    (k n : ℕ)
    → n % 2 ^ 12 ≡ 0
    → (links k (table_entry n) ≡ true) × (page_address (table_entry n) ≡ n)
table_entry-links zero n h = rw (table_entry_eq n (omega arith)) (ground arith, omega arith)
table_entry-links (suc k) n h = rw (table_entry_eq n (omega arith)) (ground arith, omega arith)

-- An allocation from an allocator that backs a tree: a frame that is no table.
pub record Fresh (place : Place) (p q : Pmm) (n : ℕ) : Type 0 where
  pub page : n % 2 ^ 12 ≡ 0
  pub not_null : n ≢ 0
  pub unplaced : place n ≡ none
  pub one_less : pmm_get_free_count q + 1 ≡ pmm_get_free_count p
  pub backed : (x : ℕ × List ℕ) → IsBacked (update place n (some x)) q

Aligned_top :
    (p : Pmm)
    → IsAligned p
    → 0 < p.depth
    → ((pmm_alloc_frame p).0 % 2 ^ 12 ≡ 0) × IsAligned (pmm_alloc_frame p).1
Aligned_top p a h = elim (Nat-cases p.depth) [
  | inl e ↦ absurd (omega arith)
  | inr (n, e) ↦
      let below = subst (Aligned p.free_stack) e a in rw (alloc_eq p n e) (below.0, below.1)
]

-- A table is not the frame that is handed out.
table_apart :
    (place : Place) (p q : Pmm) (n t : ℕ) (x : ℕ × List ℕ)
    → IsBacked place p
    → Allocated p q n
    → place t ≡ some x
    → t / 2 ^ 12 ≢ n / 2 ^ 12
table_apart place p q n t x b got at' e =
    ground (arith, got.was_free, b.in_use t x at', ap (is_free p) e)

alloc-in_use :
    (place : Place) (p q : Pmm) (n : ℕ) (x : ℕ × List ℕ)
    → IsBacked place p
    → Allocated p q n
    → (t : ℕ) (y : ℕ × List ℕ) → update place n (some x) t ≡ some y
    → is_free q (t / 2 ^ 12) ≡ false
alloc-in_use place p q n x b got t y at' = elim (Bool-cases (t == n)) [
  | inl e ↦ let et : t ≡ n = ground (arith, e) in rw et (ground (arith, got.used))
  | inr e ↦
      let was : place t ≡ some y = ground (arith, at', e) in
      (got.others t (table_apart place p q n t y b got was)).0 ∙ b.in_use t y was
]

pub alloc-Fresh :
    (place : Place) (p : Pmm)
    → IsBacked place p
    → 0 < pmm_get_free_count p
    → Fresh place p (pmm_alloc_frame p).1 (pmm_alloc_frame p).0
unfolding pmm_get_free_count
alloc-Fresh place p b h =
    let n = (pmm_alloc_frame p).0 in
    let got = alloc-Allocated p b.valid h in
    let (page, aligned) = Aligned_top p b.aligned h in
    let ne : n / 2 ^ 12 ≢ 0 = λ e. ground (arith, got.was_free, b.no_zero, ap (is_free p) e) in
    record {
      page = page;
      not_null = λ e. ne (omega (arith, e));
      unplaced = elim (Option-cases (place n)) [
        | inl e ↦ e
        | inr (x, e) ↦ absurd (table_apart place p (pmm_alloc_frame p).1 n n x b got e refl)
      ];
      one_less = got.one_less;
      backed = λ x. record {
        valid = alloc-IsValid p b.valid;
        aligned = aligned;
        no_zero = (got.others 0 (λ e. ne (sym e))).0 ∙ b.no_zero;
        in_use = alloc-in_use place p (pmm_alloc_frame p).1 n x b got;
      };
    }

-- What `ensure_next_table` leaves for entry `i` of `t`, whose next tables are `k` levels above the page
-- tables: `n` is the next table, all tables keep their places and their present entries, no
-- translation changes, and at most one frame is used up.
pub record Ensured (root : ℕ) (place place' : Place) (v v' : Vmm) (t i k n : ℕ) (p : List ℕ)
    : Type 0 where
  pub tree : IsTree root place' v'.tables
  pub backed : IsBacked place' v'.pmm
  pub placed : place' n ≡ some (k, p ++ i ∷ [])
  pub names : (links k (v'.tables t i) ≡ true) × (page_address (v'.tables t i) ≡ n)
  pub keeps : (u : ℕ) (x : ℕ × List ℕ) → place u ≡ some x → place' u ≡ some x
  pub entries :
      (u j : ℕ) (x : ℕ × List ℕ)
      → place u ≡ some x
      → is_present (v.tables u j) ≡ true
      → v'.tables u j ≡ v.tables u j
  pub lookups : (q : List ℕ) → lookup v'.tables 3 root q ≡ lookup v.tables 3 root q
  pub frames : pmm_get_free_count v.pmm ≤ pmm_get_free_count v'.pmm + 1

-- The table is there.
ensure_found :
    (t i : ℕ) (v : Vmm)
    → is_present (v.tables t i) ≡ true
    → page_address (v.tables t i) ≢ 0
    → ensure_next_table t i v ≡ (page_address (v.tables t i), v)
unfolding ensure_next_table
ensure_found t i v h ne = ground (arith, h, ne)

-- The tables when `n` is cleared and named by entry `i` of `t`.
abbrev with_table : Tables → ℕ → ℕ → ℕ → Tables
with_table T t i n =
    update (update T n (λ j. 0)) t (update (update T n (λ j. 0) t) i (table_entry n))

-- It is not, and a frame is left.
ensure_made :
    (t i : ℕ) (v : Vmm)
    → is_present (v.tables t i) ≡ false
    → t ≢ (pmm_alloc_frame v.pmm).0
    → (pmm_alloc_frame v.pmm).0 ≢ 0
    → ensure_next_table t i v ≡ (
      (pmm_alloc_frame v.pmm).0,
      record v {
        pmm = (pmm_alloc_frame v.pmm).1;
        tables = with_table v.tables t i (pmm_alloc_frame v.pmm).0;
      },
    )
unfolding ensure_next_table
ensure_made t i v h apart ne =
    let n = (pmm_alloc_frame v.pmm).0 in
    let again : update v.tables n (λ j. 0) t i ≡ v.tables t i =
      ap (λ f. f i) (update_ne v.tables n t (λ j. 0) apart) in
    ground (arith, h, ne, apart, again)

with_table-IsNew :
    (place : Place) (T : Tables) (t i k n : ℕ) (p : List ℕ)
    → place t ≡ some (suc k, p)
    → is_present (T t i) ≡ false
    → place n ≡ none
    → t ≢ n
    → n % 2 ^ 12 ≡ 0
    → IsNew place T (with_table T t i n) t i k n p
with_table-IsNew place T t i k n p at' h un apart page = record {
  parent = at';
  absent = h;
  unplaced = un;
  names =
      let e : with_table T t i n t i ≡ table_entry n = ground arith in
      rw e (table_entry-links k n page);
  zeros = λ j. ground (arith, apart);
  same = λ u j a b. ground (arith, a, b);
}

ensure_new :
    (root : ℕ) (place : Place) (v : Vmm) (t i k : ℕ) (p : List ℕ)
    → IsTree root place v.tables
    → IsBacked place v.pmm
    → place t ≡ some (suc k, p)
    → is_present (v.tables t i) ≡ false
    → 0 < pmm_get_free_count v.pmm
    → (place' : Place) × Ensured root place place' v
        (ensure_next_table t i v).1
        t
        i
        k
        (ensure_next_table t i v).0
        p
ensure_new root place v t i k p tree b at' h some_free =
    let n = (pmm_alloc_frame v.pmm).0 in
    let fresh = alloc-Fresh place v.pmm b some_free in
    let apart : t ≢ n = ne_of_place place t n (suc k, p) at' fresh.unplaced in
    let new = with_table-IsNew place v.tables t i k n p at' h fresh.unplaced apart fresh.page in
    rw (ensure_made t i v h apart fresh.not_null) (
      update place n (some (k, p ++ i ∷ [])),
      record {
        tree =
            new-IsTree root place v.tables (with_table v.tables t i n) t i k n p tree new
              fresh.not_null;
        backed = fresh.backed (k, p ++ i ∷ []);
        placed = update_self place n (some (k, p ++ i ∷ []));
        names = new.names;
        keeps = λ u x e. placed_old place u n x (k, p ++ i ∷ []) e fresh.unplaced;
        entries = λ u j x e here.
            new.same u j (ne_of_place place u n x e fresh.unplaced)
              (λ eu ej. ground (arith, here, h, ap (λ x. v.tables x j) eu, ap (v.tables t) ej));
        lookups = λ q.
            lookup_new root place v.tables (with_table v.tables t i n) t i k n p tree new 3 root []
              q tree.top;
        frames = omega (arith, fresh.one_less);
      },
    )

-- `ensure_next_table` with a frame left, at an entry that names a table if it is present.
pub ensure_next_table-Ensured :
    (root : ℕ) (place : Place) (v : Vmm) (t i k : ℕ) (p : List ℕ)
    → IsTree root place v.tables
    → IsBacked place v.pmm
    → place t ≡ some (suc k, p)
    → (is_present (v.tables t i) ≡ true → links k (v.tables t i) ≡ true)
    → 0 < pmm_get_free_count v.pmm
    → (place' : Place) × Ensured root place place' v
        (ensure_next_table t i v).1
        t
        i
        k
        (ensure_next_table t i v).0
        p
ensure_next_table-Ensured root place v t i k p tree b at' table some_free =
    elim (Bool-cases (is_present (v.tables t i))) [
      | inl h ↦
          let l = table h in
          let below = tree.linked t i k p at' l in
          rw (ensure_found t i v h (λ e. ground (arith, below, tree.null, ap place e))) (
            place,
            record {
              tree = tree;
              backed = b;
              placed = below;
              names = (l, refl);
              keeps = λ u x e. e;
              entries = λ u j x e here. refl;
              lookups = λ q. refl;
              frames = omega arith;
            },
          )
      | inr h ↦ ensure_new root place v t i k p tree b at' h some_free
    ]
