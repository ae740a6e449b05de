-- ===== src/Window/Redraw.antt =====
-- src/kernel/window.c: no pixel that waits to be drawn is lost.
use zoho_os.Prelude.{
  ℕ, Bool-cases, ◌<◌, ◌≡◌, ◌⊎◌, inl, inr, sym, subst, true, Option-cases, List, [], ◌∷◌, ◌++◌,
  length, Option, none, some, arith, ltb,
}
use zoho_os.Window.Dirty.{
  Rect, rect_union, rect_intersect, join_first, add_rect, queue_clipped, queue_dirty_rect,
}
use zoho_os.Window.Cover.{
  Covers, Covered, IsSmall, AllSmall, union-IsSmall, union-left, union-right, intersect-Covers,
  intersect-IsSmall, Covered-append,
}

-- Where a rectangle takes the new one in, all that was covered is, and the new one too.
join_first-Covered :
    (px py : ℕ) (clipped : Rect) (dirty joined : List Rect)
    → IsSmall clipped
    → AllSmall dirty
    → join_first clipped dirty ≡ some joined
    → Covered px py dirty ⊎ Covers px py clipped
    → Covered px py joined
unfolding join_first
join_first-Covered px py clipped [] joined sc sd h c = absurd (ground (arith, h))
join_first-Covered px py clipped (r ∷ rest) joined sc sd h c =
    elim (Option-cases (rect_intersect r clipped)) [
      | inr (overlap, e) ↦
          let eq : rect_union r clipped ∷ rest ≡ joined = ground (arith, h, e) in
          subst (Covered px py) eq (elim c [
            | inl (inl here) ↦ inl (union-left px py r clipped sd.0 sc here)
            | inl (inr there) ↦ inr there
            | inr new ↦ inl (union-right px py r clipped sd.0 sc new)
          ])
      | inl e ↦ elim (Option-cases (join_first clipped rest)) [
        | inl none_left ↦ absurd (ground (arith, h, e, none_left))
        | inr (further, e') ↦
            let eq : r ∷ further ≡ joined = ground (arith, h, e, e') in
            subst (Covered px py) eq (elim c [
              | inl (inl here) ↦ inl here
              | inl (inr there) ↦
                  inr (join_first-Covered px py clipped rest further sc sd.1 e' (inl there))
              | inr new ↦ inr (join_first-Covered px py clipped rest further sc sd.1 e' (inr new))
            ])
      ]
    ]

add_rect-Covered :
    (px py : ℕ) (clipped : Rect) (dirty : List Rect)
    → length dirty < 32
    → Covered px py dirty ⊎ Covers px py clipped
    → Covered px py (add_rect clipped dirty)
unfolding add_rect
add_rect-Covered px py clipped [] h (inl c) = absurd c
add_rect-Covered px py clipped [] h (inr c) = inl c
add_rect-Covered px py clipped (r ∷ rest) h c =
    let room : ltb (length (r ∷ rest)) 32 ≡ true = ground (arith, h) in
    rw room (
      Covered-append px py (r ∷ rest) (clipped ∷ [])
        (elim c [ inl old ↦ inl old | inr new ↦ inr (inl new) ]))

queue_clipped-Covered :
    (px py : ℕ) (clipped : Rect) (dirty : List Rect)
    → IsSmall clipped
    → AllSmall dirty
    → length dirty < 32
    → Covered px py dirty ⊎ Covers px py clipped
    → Covered px py (queue_clipped dirty clipped)
unfolding queue_clipped
queue_clipped-Covered px py clipped dirty sc sd h c =
    elim (Option-cases (join_first clipped dirty)) [
      | inl e ↦ rw (e, queue_clipped) (add_rect-Covered px py clipped dirty h c)
      | inr (joined, e) ↦
          rw (e, queue_clipped) (join_first-Covered px py clipped dirty joined sc sd e c)
    ]

-- The rectangles stay near, so that the next call finds them so.
join_first-AllSmall :
    (clipped : Rect) (dirty joined : List Rect)
    → IsSmall clipped
    → AllSmall dirty
    → join_first clipped dirty ≡ some joined
    → AllSmall joined
unfolding join_first
join_first-AllSmall clipped [] joined sc sd h = absurd (ground (arith, h))
join_first-AllSmall clipped (r ∷ rest) joined sc sd h =
    elim (Option-cases (rect_intersect r clipped)) [
      | inr (overlap, e) ↦
          let eq : rect_union r clipped ∷ rest ≡ joined = ground (arith, h, e) in
          subst AllSmall eq (union-IsSmall r clipped sd.0 sc, sd.1)
      | inl e ↦ elim (Option-cases (join_first clipped rest)) [
        | inl none_left ↦ absurd (ground (arith, h, e, none_left))
        | inr (further, e') ↦
            let eq : r ∷ further ≡ joined = ground (arith, h, e, e') in
            subst AllSmall eq (sd.0, join_first-AllSmall clipped rest further sc sd.1 e')
      ]
    ]

append-AllSmall : (xs ys : List Rect) → AllSmall xs → AllSmall ys → AllSmall (xs ++ ys)
append-AllSmall [] ys a b = b
append-AllSmall (x ∷ rest) ys a b = (a.0, append-AllSmall rest ys a.1 b)

queue_clipped-AllSmall :
    (clipped : Rect) (dirty : List Rect)
    → IsSmall clipped
    → AllSmall dirty
    → AllSmall (queue_clipped dirty clipped)
unfolding queue_clipped
queue_clipped-AllSmall clipped dirty sc sd = elim (Option-cases (join_first clipped dirty)) [
  | inl e ↦ rw (e, queue_clipped) (added dirty sd)
  | inr (joined, e) ↦ rw (e, queue_clipped) (join_first-AllSmall clipped dirty joined sc sd e)
]
  where
    added : (dirty : List Rect) → AllSmall dirty → AllSmall (add_rect clipped dirty)
    added [] sd = (sc, tt)
    added (r ∷ rest) sd = elim (Bool-cases (ltb (length (r ∷ rest)) 32)) [
      | inl t ↦ rw t (append-AllSmall (r ∷ rest) (clipped ∷ []) sd (sc, tt))
      | inr t ↦ rw t (union-IsSmall r clipped sd.0 sc, tt)
    ]

pub queue_dirty_rect-AllSmall :
    (screen rect : Rect) (dirty : List Rect)
    → IsSmall screen
    → IsSmall rect
    → AllSmall dirty
    → AllSmall (queue_dirty_rect screen rect dirty)
unfolding queue_dirty_rect
queue_dirty_rect-AllSmall screen rect dirty ss sr sd =
    let result = λ (o : Option Rect). elim o as (λ x. List Rect) [
      | none ↦ dirty
      | some clipped ↦ queue_clipped dirty clipped
    ] in
    elim (Option-cases (rect_intersect rect screen)) [
      | inl e ↦ subst (λ o. AllSmall (result o)) (sym e) sd
      | inr (clipped, e) ↦
          subst (λ o. AllSmall (result o)) (sym e)
            (queue_clipped-AllSmall clipped dirty (intersect-IsSmall rect screen clipped sr ss e)
              sd)
    ]

-- While fewer than 32 rectangles wait, and none goes further than 2 ^ 29 from 0, every pixel that
-- waited to be drawn still does after another rectangle is queued, and so does every pixel of that one
-- on the screen.
pub queue_dirty_rect-Covered :
    (px py : ℕ) (screen rect : Rect) (dirty : List Rect)
    → IsSmall screen
    → IsSmall rect
    → AllSmall dirty
    → length dirty < 32
    → Covered px py dirty ⊎ (Covers px py rect × Covers px py screen)
    → Covered px py (queue_dirty_rect screen rect dirty)
unfolding queue_dirty_rect
queue_dirty_rect-Covered px py screen rect dirty ss sr sd h c =
    let result = λ (o : Option Rect). elim o as (λ x. List Rect) [
      | none ↦ dirty
      | some clipped ↦ queue_clipped dirty clipped
    ] in
    elim (Option-cases (rect_intersect rect screen)) [
      | inl e ↦ elim c [
        | inl old ↦ subst (λ o. Covered px py (result o)) (sym e) old
        | inr (a, b) ↦
            let (r, e', cov) = intersect-Covers px py rect screen sr ss a b in
            absurd (ground (arith, e, e'))
      ]
      | inr (clipped, e) ↦
          subst (λ o. Covered px py (result o)) (sym e)
            (queue_clipped-Covered px py clipped dirty
              (intersect-IsSmall rect screen clipped sr ss e) sd h
              (elim c [
                | inl old ↦ inl old
                | inr (a, b) ↦
                    let (r, e', cov) = intersect-Covers px py rect screen sr ss a b in
                    let same : r ≡ clipped = ground (arith, e, e') in
                    inr (subst (Covers px py) same cov)
              ]))
    ]
