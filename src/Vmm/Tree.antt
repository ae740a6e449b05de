-- ===== src/Vmm/Tree.antt =====
-- src/kernel/vmm.c: the tables of an address space form a tree, and what a write to one entry of it
-- does to the paths.
use zoho_os.Prelude.{
  ℕ, zero, suc, ◌/◌, ◌^◌, ◌≡◌, ◌≢◌, refl, sym, ap, ◌∙◌, true, false, ◌&&◌, List, [], ◌∷◌, ◌++◌,
  Option, none, some, arith, ◌==◌, Bool-cases, inl, inr, update, update_self,
}
use zoho_os.Pmm.{Pmm}
use zoho_os.Pmm.Invariant.{IsValid, IsAligned, is_free}
use zoho_os.Vmm.{Tables, is_present, page_address}
use zoho_os.Vmm.Lookup.{lookup, lookup-zeros, links, leaf}

-- For a table: how many levels it is above the page tables, and the path that leads to it.
abbrev pub Place : Type 0
Place = ℕ → Option (ℕ × List ℕ)

-- Every table that an entry names has its own place, below the one that names it; 0 is no table.
pub record IsTree (root : ℕ) (place : Place) (T : Tables) : Type 0 where
  pub top : place root ≡ some (3, [])
  pub null : place 0 ≡ none
  pub linked :
      (t i k : ℕ) (p : List ℕ)
      → place t ≡ some (suc k, p)
      → links k (T t i) ≡ true
      → place (page_address (T t i)) ≡ some (k, p ++ i ∷ [])

-- The allocator works, never hands out frame 0, and no table is on its free stack.
pub record IsBacked (place : Place) (p : Pmm) : Type 0 where
  pub valid : IsValid p
  pub aligned : IsAligned p
  pub no_zero : is_free p 0 ≡ false
  pub in_use : (t : ℕ) (x : ℕ × List ℕ) → place t ≡ some x → is_free p (t / 2 ^ 12) ≡ false

append_one : (p q : List ℕ) (j : ℕ) → (p ++ j ∷ []) ++ q ≡ p ++ j ∷ q
append_one [] q j = refl
append_one (a ∷ p) q j = ap (λ x. a ∷ x) (append_one p q j)

-- Two memories that agree on all entries of tables on a path give it the same page.
pub lookup_agree :
    (root : ℕ) (place : Place) (T T' : Tables)
    → IsTree root place T
    → (whole : List ℕ)
    → ((u k j : ℕ) (p q : List ℕ) → place u ≡ some (k, p) → whole ≡ p ++ j ∷ q → T' u j ≡ T u j)
    → (k u : ℕ) (p q : List ℕ) → place u ≡ some (k, p)
    → whole ≡ p ++ q
    → lookup T' k u q ≡ lookup T k u q
unfolding lookup
lookup_agree root place T T' tree whole same k u p [] at' e = refl
lookup_agree root place T T' tree whole same zero u p (j ∷ q) at' e = ap leaf (same u 0 j p q at' e)
lookup_agree root place T T' tree whole same (suc k) u p (j ∷ q) at' e =
    elim (Bool-cases (links k (T u j))) [
      | inl l ↦
          let r =
            lookup_agree root place T T' tree whole same k (page_address (T u j)) (p ++ j ∷ []) q
              (tree.linked u j k p at' l) (e ∙ sym (append_one p q j)) in
          ground (arith, same u (suc k) j p q at' e, l, r)
      | inr l ↦ ground (arith, same u (suc k) j p q at' e, l)
    ]

-- The entry where a new table `n` of zeros is put, at an entry `i` of `t` that named none.
pub record IsNew (place : Place) (T T' : Tables) (t i k n : ℕ) (p : List ℕ) : Type 0 where
  pub parent : place t ≡ some (suc k, p)
  pub absent : is_present (T t i) ≡ false
  pub unplaced : place n ≡ none
  pub names : (links k (T' t i) ≡ true) × (page_address (T' t i) ≡ n)
  pub zeros : (j : ℕ) → T' n j ≡ 0
  pub same : (u j : ℕ) → u ≢ n → (u ≡ t → j ≢ i) → T' u j ≡ T u j

-- An entry that is not present names no table.
pub links_absent : (k e : ℕ) → is_present e ≡ false → links k e ≡ false
links_absent zero e h = ground (arith, h)
links_absent (suc k) e h = h

-- Places differ, so the tables do.
pub ne_of_place :
    (place : Place) (u n : ℕ) (x : ℕ × List ℕ) → place u ≡ some x → place n ≡ none → u ≢ n
ne_of_place place u n x a b e = ground (arith, a, b, ap place e)

-- A page table is no table above it.
pub ne_of_level :
    (place : Place) (u t k : ℕ) (r p : List ℕ)
    → place u ≡ some (suc k, r)
    → place t ≡ some (0, p)
    → u ≢ t
ne_of_level place u t k r p a b e = ground (arith, a, b, ap place e)

-- A new table changes no translation.
pub lookup_new :
    (root : ℕ) (place : Place) (T T' : Tables) (t i k n : ℕ) (p : List ℕ)
    → IsTree root place T
    → IsNew place T T' t i k n p
    → (m u : ℕ) (r q : List ℕ) → place u ≡ some (m, r)
    → lookup T' m u q ≡ lookup T m u q
unfolding lookup
lookup_new root place T T' t i k n p tree new m u r [] at' = refl
lookup_new root place T T' t i k n p tree new zero u r (j ∷ q) at' = ap leaf (
    new.same u j (ne_of_place place u n (0, r) at' new.unplaced)
      (λ e. ground (arith, ap place e, at', new.parent)))
lookup_new root place T T' t i k n p tree new (suc m) u r (j ∷ q) at' =
    elim (Bool-cases ((u == t) && (j == i))) [
      | inl both ↦
          let eu : u ≡ t = ground (arith, both) in
          let ej : j ≡ i = ground (arith, both) in
          let em : m ≡ k = ground (arith, ap place eu, at', new.parent) in
          let z : lookup T' k (page_address (T' t i)) q ≡ none =
            ap (λ x. lookup T' k x q) (new.names.1) ∙ lookup-zeros T' k n q new.zeros in
          rw eu (
            rw ej (
              rw em
                (ground (arith, z, new.names.0, new.absent, links_absent k (T t i) new.absent))))
      | inr apart ↦
          let e : T' u j ≡ T u j =
            new.same u j (ne_of_place place u n (suc m, r) at' new.unplaced)
              (λ eu ej. ground (arith, eu, ej, apart)) in
          elim (Bool-cases (links m (T u j))) [
            | inl l ↦
                let h =
                  lookup_new root place T T' t i k n p tree new m (page_address (T u j))
                    (r ++ j ∷ []) q (tree.linked u j m r at' l) in
                ground (arith, e, l, h)
            | inr l ↦ ground (arith, e, l)
          ]
    ]

-- A new place leaves the old ones.
pub placed_old :
    (place : Place) (u n : ℕ) (x y : ℕ × List ℕ)
    → place u ≡ some x
    → place n ≡ none
    → update place n (some y) u ≡ some x
placed_old place u n x y a b = ground (arith, ne_of_place place u n x a b, a)

-- A new table gets its place, and the tables are a tree with it.
pub new-IsTree :
    (root : ℕ) (place : Place) (T T' : Tables) (t i k n : ℕ) (p : List ℕ)
    → IsTree root place T
    → IsNew place T T' t i k n p
    → n ≢ 0
    → IsTree root (update place n (some (k, p ++ i ∷ []))) T'
new-IsTree root place T T' t i k n p tree new ne = record {
  top = placed_old place root n (3, []) (k, p ++ i ∷ []) tree.top new.unplaced;
  null = ground (arith, ne, tree.null);
  linked = λ u j m r at' l. elim (Bool-cases (u == n)) [
    | inl e ↦
        let eu : u ≡ n = ground (arith, e) in
        absurd (
          ground (
            arith,
            l,
            links_absent m (T' u j) (ground (arith, eu, ap (λ x. T' x j) eu, new.zeros j)),
          ))
    | inr e ↦ old u j m r (ground (arith, e)) (ground (arith, at', e)) l
  ];
}
  where
    place' : Place
    place' = update place n (some (k, p ++ i ∷ []))

    old :
        (u j m : ℕ) (r : List ℕ)
        → u ≢ n
        → place u ≡ some (suc m, r)
        → links m (T' u j) ≡ true
        → update place n (some (k, p ++ i ∷ [])) (page_address (T' u j)) ≡ some (m, r ++ j ∷ [])
    old u j m r ne at' l = elim (Bool-cases ((u == t) && (j == i))) [
      | inl both ↦
          let eu : u ≡ t = ground (arith, both) in
          let ej : j ≡ i = ground (arith, both) in
          let em : m ≡ k = ground (arith, ap place eu, at', new.parent) in
          let er : r ≡ p = ground (arith, ap place eu, at', new.parent) in
          rw eu
            (rw ej (rw em (rw er (rw new.names.1 (update_self place n (some (k, p ++ i ∷ [])))))))
      | inr apart ↦
          let e : T' u j ≡ T u j = new.same u j ne (λ eu ej. ground (arith, eu, ej, apart)) in
          rw e (
            placed_old place (page_address (T u j)) n (m, r ++ j ∷ []) (k, p ++ i ∷ [])
              (tree.linked u j m r at' (ground (arith, e, l))) new.unplaced)
    ]

-- An entry that names no table can be changed to another one that names none.
pub write-IsTree :
    (root : ℕ) (place : Place) (T : Tables) (t i e k : ℕ) (p : List ℕ)
    → IsTree root place T
    → place t ≡ some (k, p)
    → ((m : ℕ) → k ≡ suc m → links m e ≡ false)
    → IsTree root place (update T t (update (T t) i e))
write-IsTree root place T t i e k p tree at' plain = record {
  top = tree.top;
  null = tree.null;
  linked = λ u j m r here l. elim (Bool-cases ((u == t) && (j == i))) [
    | inl both ↦
        let eu : u ≡ t = ground (arith, both) in
        let ek : k ≡ suc m = ground (arith, ap place eu, here, at') in
        absurd (ground (arith, both, l, plain m ek))
    | inr apart ↦
        let same : update T t (update (T t) i e) u j ≡ T u j =
          ground (arith, apart, ap (λ x. T x j)) in
        rw same (tree.linked u j m r here (ground (arith, same, l)))
  ];
}
