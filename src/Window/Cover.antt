-- ===== src/Window/Cover.antt =====
-- src/kernel/window.c: which pixels a rectangle covers, a union and an intersection.
use zoho_os.Prelude.{
  ℕ, ◌+◌, ◌-◌, ◌*◌, refl, Bool-cases, ◌^◌, ◌≤◌, ◌<◌, ◌≡◌, ◌⊎◌, inl, inr, subst, Bool, true, false,
  ◌||◌, List, [], ◌∷◌, ◌++◌, none, some, arith, ltb, leb, if◌then◌else◌,
}
use zoho_os.Window.Dirty.{
  bias, plus, minus, smaller, larger, Rect, make_rect, rect_union, rect_intersect,
}

-- A place on one axis is in a range.
abbrev pub InRange : ℕ → ℕ → ℕ → Type 0
InRange p from size = (from ≤ p) × (p + bias < from + size)

-- A pixel is in a rectangle, and in one of a list.
pub record Covers (px py : ℕ) (r : Rect) : Type 0 where
  pub across : InRange px r.x r.w
  pub down : InRange py r.y r.h

abbrev pub Covered : ℕ → ℕ → List Rect → Type 0
Covered px py [] = ⊥
Covered px py (r ∷ rest) = Covers px py r ⊎ Covered px py rest

-- A range begins and ends at most 2 ^ 29 from 0, so that no sum leaves the 32 bits.
abbrev pub IsNear : ℕ → ℕ → Type 0
IsNear from size = (bias ≤ from + 2 ^ 29) × (bias ≤ size) × (from + size ≤ 2 * bias + 2 ^ 29)

pub record IsSmall (r : Rect) : Type 0 where
  pub across : IsNear r.x r.w
  pub down : IsNear r.y r.h

abbrev pub AllSmall : List Rect → Type 0
AllSmall [] = Unit {0}
AllSmall (r ∷ rest) = IsSmall r × AllSmall rest

plus_near : (from size : ℕ) → IsNear from size → plus from size + bias ≡ from + size
plus_near from size (a, b, c) = omega (arith, a, b, c)

smaller_le :
    (a b : ℕ) → (smaller a b ≤ a) × (smaller a b ≤ b) × ((smaller a b ≡ a) ⊎ (smaller a b ≡ b))
smaller_le a b = elim (Bool-cases (ltb a b)) [
  | inl t ↦ (ground (arith, t), ground (arith, t), inl (ground (arith, t)))
  | inr t ↦ (ground (arith, t), ground (arith, t), inr (ground (arith, t)))
]

larger_le : (a b : ℕ) → (a ≤ larger a b) × (b ≤ larger a b) × ((larger a b ≡ a) ⊎ (larger a b ≡ b))
larger_le a b = elim (Bool-cases (ltb b a)) [
  | inl t ↦ (ground (arith, t), ground (arith, t), inl (ground (arith, t)))
  | inr t ↦ (ground (arith, t), ground (arith, t), inr (ground (arith, t)))
]

-- A range between two near places.
between-IsNear :
    (s l : ℕ)
    → bias ≤ s + 2 ^ 29
    → s ≤ l
    → l ≤ bias + 2 ^ 29
    → IsNear s (minus l s) × (s + minus l s ≡ l + bias)
between-IsNear s l a b c =
    let e : minus l s ≡ l + bias - s = omega (arith, a, b, c) in
    ((omega (arith, a), omega (arith, e, b), omega (arith, e, b, c)), omega (arith, e, b))

-- The range of a union.
union_range :
    (ax aw bx bw : ℕ)
    → IsNear ax aw
    → IsNear bx bw
    → let s = smaller ax bx in
      let l = larger (plus ax aw) (plus bx bw) in
      IsNear s (minus l s) × ((p : ℕ) → InRange p ax aw ⊎ InRange p bx bw → InRange p s (minus l s))
union_range ax aw bx bw na nb =
    let s = smaller ax bx in
    let l = larger (plus ax aw) (plus bx bw) in
    let ea = plus_near ax aw na in
    let eb = plus_near bx bw nb in
    let lo = smaller_le ax bx in
    let hi = larger_le (plus ax aw) (plus bx bw) in
    let near =
      between-IsNear s l (omega (arith, lo.2, na.0, nb.0)) (omega (arith, lo.0, hi.0, ea, na.1))
        (omega (arith, hi.2, ea, eb, na.2, nb.2)) in
    (
      near.0,
      λ p c. elim c [
        | inl (a, b) ↦ (omega (arith, a, lo.0), omega (arith, near.1, b, ea, hi.0))
        | inr (a, b) ↦ (omega (arith, a, lo.1), omega (arith, near.1, b, eb, hi.1))
      ],
    )

pub union-IsSmall : (a b : Rect) → IsSmall a → IsSmall b → IsSmall (rect_union a b)
unfolding rect_union make_rect
union-IsSmall a b sa sb = record {
  across = (union_range a.x a.w b.x b.w sa.across sb.across).0;
  down = (union_range a.y a.h b.y b.h sa.down sb.down).0;
}

-- A union covers what its parts do.
pub union-left :
    (px py : ℕ) (a b : Rect)
    → IsSmall a
    → IsSmall b
    → Covers px py a
    → Covers px py (rect_union a b)
unfolding rect_union make_rect
union-left px py a b sa sb h = record {
  across = (union_range a.x a.w b.x b.w sa.across sb.across).1 px (inl h.across);
  down = (union_range a.y a.h b.y b.h sa.down sb.down).1 py (inl h.down);
}

pub union-right :
    (px py : ℕ) (a b : Rect)
    → IsSmall a
    → IsSmall b
    → Covers px py b
    → Covers px py (rect_union a b)
unfolding rect_union make_rect
union-right px py a b sa sb h = record {
  across = (union_range a.x a.w b.x b.w sa.across sb.across).1 px (inr h.across);
  down = (union_range a.y a.h b.y b.h sa.down sb.down).1 py (inr h.down);
}

-- The range of an intersection.
shared_range :
    (ax aw bx bw : ℕ)
    → IsNear ax aw
    → IsNear bx bw
    → let from = larger ax bx in
      let to = smaller (plus ax aw) (plus bx bw) in
      (from < to → IsNear from (minus to from))
      × ((p : ℕ) → InRange p ax aw → InRange p bx bw → (from < to) × InRange p from (minus to from))
shared_range ax aw bx bw na nb =
    let from = larger ax bx in
    let to = smaller (plus ax aw) (plus bx bw) in
    let ea = plus_near ax aw na in
    let eb = plus_near bx bw nb in
    let hi = larger_le ax bx in
    let lo = smaller_le (plus ax aw) (plus bx bw) in
    let near = λ (h : from < to).
      between-IsNear from to (omega (arith, hi.0, na.0)) (omega (arith, h))
        (omega (arith, lo.0, ea, na.2)) in
    (
      (λ h. (near h).0),
      λ p a b.
          let l : from ≤ p = omega (arith, hi.2, a.0, b.0) in
          let u : p < to = omega (arith, lo.2, ea, eb, a.1, b.1) in
          (omega (arith, l, u), (l, omega (arith, u, (near (omega (arith, l, u))).1))),
    )

-- An intersection covers what both do.
pub intersect-Covers :
    (px py : ℕ) (a b : Rect)
    → IsSmall a
    → IsSmall b
    → Covers px py a
    → Covers px py b
    → (r : Rect) × (rect_intersect a b ≡ some r) × Covers px py r
unfolding rect_intersect
intersect-Covers px py a b sa sb s t =
    let across = (shared_range a.x a.w b.x b.w sa.across sb.across).1 px s.across t.across in
    let down = (shared_range a.y a.h b.y b.h sa.down sb.down).1 py s.down t.down in
    let x₁ = larger a.x b.x in
    let y₁ = larger a.y b.y in
    let x₂ = smaller (plus a.x a.w) (plus b.x b.w) in
    let y₂ = smaller (plus a.y a.h) (plus b.y b.h) in
    let wide : leb x₂ x₁ ≡ false = ground (arith, across.0) in
    let high : leb y₂ y₁ ≡ false = ground (arith, down.0) in
    (
      record { x = x₁; y = y₁; w = minus x₂ x₁; h = minus y₂ y₁ },
      (λ i.
          if wide i || high i
          then none
          else some (record { x = x₁; y = y₁; w = minus x₂ x₁; h = minus y₂ y₁ })),
      record { across = across.1; down = down.1 },
    )

-- What a test lets through.
unless :
    (b c : Bool) (r s : Rect)
    → (if b || c then none else some r) ≡ some s
    → (b ≡ false) × (c ≡ false) × (r ≡ s)
unless true c r s h = absurd (ground (arith, h))
unless false true r s h = absurd (ground (arith, h))
unless false false r s h = (refl, refl, ground (arith, h))

pub intersect-IsSmall :
    (a b r : Rect) → IsSmall a → IsSmall b → rect_intersect a b ≡ some r → IsSmall r
unfolding rect_intersect
intersect-IsSmall a b r sa sb h =
    let x₁ = larger a.x b.x in
    let y₁ = larger a.y b.y in
    let x₂ = smaller (plus a.x a.w) (plus b.x b.w) in
    let y₂ = smaller (plus a.y a.h) (plus b.y b.h) in
    let (wide, high, e) =
      unless (leb x₂ x₁) (leb y₂ y₁) (record { x = x₁; y = y₁; w = minus x₂ x₁; h = minus y₂ y₁ }) r
        h in
    subst IsSmall e (record {
      across = (shared_range a.x a.w b.x b.w sa.across sb.across).0 (leb_false x₂ x₁ wide);
      down = (shared_range a.y a.h b.y b.h sa.down sb.down).0 (leb_false y₂ y₁ high);
    })
  where
    leb_false : (m n : ℕ) → leb m n ≡ false → n < m
    leb_false m n h = ground (arith, h)

pub Covered-append :
    (px py : ℕ) (xs ys : List Rect) → Covered px py xs ⊎ Covered px py ys → Covered px py (xs ++ ys)
Covered-append px py [] ys (inl h) = absurd h
Covered-append px py [] ys (inr h) = h
Covered-append px py (x ∷ rest) ys (inl (inl h)) = inl h
Covered-append px py (x ∷ rest) ys (inl (inr h)) = inr (Covered-append px py rest ys (inl h))
Covered-append px py (x ∷ rest) ys (inr h) = inr (Covered-append px py rest ys (inr h))
