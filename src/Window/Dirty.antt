-- ===== src/Window/Dirty.antt =====
-- src/kernel/window.c: the rectangles that wait to be drawn.
-- An `int32_t` with the value c is the number c + 2 ^ 31, so that numbers compare as C's integers do.
-- Sums wrap around at 32 bits. The first `dirty_count` entries of `dirty_rects` are a list.
use zoho_os.Prelude.{
  ℕ, ◌+◌, ◌-◌, ◌%◌, ◌^◌, Bool, true, false, not, ◌&&◌, ◌||◌, List, [], ◌∷◌, ◌++◌, length, Option,
  none, some, ◌==◌, ltb, leb, if◌then◌else◌,
}
use zoho_os.Window.{Window, Desktop, set_window}

abbrev pub bias : ℕ
bias = 2 ^ 31

abbrev pub int32 : ℕ → ℕ
int32 n = (n + bias) % 2 ^ 32

-- `a + b` and `a - b`
abbrev pub plus : ℕ → ℕ → ℕ
plus a b = (a + b + bias) % 2 ^ 32

abbrev pub minus : ℕ → ℕ → ℕ
minus a b = (a + bias + 2 ^ 32 - b) % 2 ^ 32

abbrev pub smaller : ℕ → ℕ → ℕ
smaller a b = if ltb a b then a else b

abbrev pub larger : ℕ → ℕ → ℕ
larger a b = if ltb b a then a else b

-- `rect_t`
pub record Rect : Type 0 where
  pub x : ℕ
  pub y : ℕ
  pub w : ℕ
  pub h : ℕ

unfoldable pub make_rect : ℕ → ℕ → ℕ → ℕ → Rect
make_rect x y w h = record { x = x; y = y; w = w; h = h }

unfoldable pub rect_union : Rect → Rect → Rect
unfolding make_rect
rect_union a b =
    let x₁ = smaller a.x b.x in
    let y₁ = smaller a.y b.y in
    let x₂ = larger (plus a.x a.w) (plus b.x b.w) in
    let y₂ = larger (plus a.y a.h) (plus b.y b.h) in make_rect x₁ y₁ (minus x₂ x₁) (minus y₂ y₁)

unfoldable pub rect_intersect : Rect → Rect → Option Rect
rect_intersect a b =
    let x₁ = larger a.x b.x in
    let y₁ = larger a.y b.y in
    let x₂ = smaller (plus a.x a.w) (plus b.x b.w) in
    let y₂ = smaller (plus a.y a.h) (plus b.y b.h) in
    if leb x₂ x₁ || leb y₂ y₁
    then none
    else some (record { x = x₁; y = y₁; w = minus x₂ x₁; h = minus y₂ y₁ })

unfoldable pub window_outer_rect : Window → Rect
unfolding make_rect
window_outer_rect win =
    make_rect (int32 win.x) (int32 win.y) ((int32 win.w + 5) % 2 ^ 32) ((int32 win.h + 5) % 2 ^ 32)

unfoldable pub cursor_rect : ℕ → ℕ → Rect
unfolding make_rect
cursor_rect x y = make_rect x y (int32 10) (int32 15)

-- The size of the screen is what src/kernel/graphics.c gives.
unfoldable pub screen_rect : ℕ → ℕ → Rect
unfolding make_rect
screen_rect width height = make_rect (int32 0) (int32 0) (int32 width) (int32 height)

-- The loop: the first rectangle that meets the new one takes it in.
unfoldable pub join_first : Rect → List Rect → Option (List Rect)
unfolding rect_intersect rect_union
join_first clipped [] = none
join_first clipped (r ∷ rest) =
    let further = join_first clipped rest in
    elim (rect_intersect r clipped) [
      | some overlap ↦ some (rect_union r clipped ∷ rest)
      | none ↦ elim further [ none ↦ none | some joined ↦ some (r ∷ joined) ]
    ]

-- The last lines: a new entry, or, where 32 are full, the first one takes it in and the others go.
unfoldable pub add_rect : Rect → List Rect → List Rect
unfolding rect_union
add_rect clipped [] = clipped ∷ []
add_rect clipped (r ∷ rest) =
    if ltb (length (r ∷ rest)) 32 then (r ∷ rest) ++ clipped ∷ [] else rect_union r clipped ∷ []

-- `queue_dirty_rect` with the part of the rectangle on the screen.
unfoldable pub queue_clipped : List Rect → Rect → List Rect
unfolding join_first add_rect
queue_clipped dirty clipped = elim (join_first clipped dirty) [
  | some joined ↦ joined
  | none ↦ add_rect clipped dirty
]

unfoldable pub queue_dirty_rect : Rect → Rect → List Rect → List Rect
unfolding rect_intersect queue_clipped
queue_dirty_rect screen rect dirty = elim (rect_intersect rect screen) [
  | none ↦ dirty
  | some clipped ↦ queue_clipped dirty clipped
]

-- The desktop with the rectangles that wait, and the size of the screen.
pub record Display : Type 0 where
  pub desktop : Desktop
  pub dirty_rects : List Rect
  pub width : ℕ
  pub height : ℕ

-- A window is marked, and a rectangle queued.
unfoldable pub mark : ℕ → Rect → Display → Display
unfolding queue_dirty_rect screen_rect set_window
mark win rect d = record d {
  desktop = set_window win (record (d.desktop.windows win) { dirty = true }) d.desktop;
  dirty_rects = queue_dirty_rect (screen_rect d.width d.height) rect d.dirty_rects;
}

unfoldable pub window_mark_dirty : ℕ → Display → Display
unfolding mark window_outer_rect
window_mark_dirty win d =
    if win == 0 then d else mark win (window_outer_rect (d.desktop.windows win)) d

unfoldable pub window_mark_region_dirty : ℕ → ℕ → ℕ → ℕ → ℕ → Display → Display
unfolding mark make_rect
window_mark_region_dirty win x y w h d =
    let this = d.desktop.windows win in
    if win == 0
    then d
    else mark win (make_rect (plus (int32 this.x) x) (plus ((int32 this.y + 25) % 2 ^ 32) y) w h) d

unfoldable pub window_needs_redraw : Display → Bool
window_needs_redraw d = not (length d.dirty_rects == 0)

-- `window_hit_t`
pub record Hit : Type 0 where
  pub win : ℕ
  pub local_x : ℕ
  pub local_y : ℕ
  pub in_title : Bool
  pub in_body : Bool

-- Whether a place is in a window of the list, by the size that the window has.
abbrev pub is_over : ℕ → ℕ → Window → Bool
is_over mx my this =
    not (ltb mx (int32 this.x) || leb (int32 (this.x + this.w)) mx)
    && not (ltb my (int32 this.y) || leb (int32 (this.y + this.h)) my)

unfoldable pub hit_at : ℕ → ℕ → ℕ → Window → Hit
hit_at mx my win this =
    let title = ltb my (int32 this.y + 25) in
    record {
      win = win;
      local_x = (mx + 2 ^ 32 - int32 this.x) % 2 ^ 32;
      local_y =
          if title
          then (my + 2 ^ 32 - int32 this.y) % 2 ^ 32
          else (my + 2 ^ 32 - int32 this.y - 25) % 2 ^ 32;
      in_title = title;
      in_body = not title;
    }

-- The windows are in a list with their pointers, the front one first.
unfoldable pub find_window_hit : List (ℕ × Window) → ℕ → ℕ → Hit
unfolding hit_at
find_window_hit [] mx my = record {
  win = 0;
  local_x = 0;
  local_y = 0;
  in_title = false;
  in_body = false;
}
find_window_hit ((win, this) ∷ rest) mx my =
    let further = find_window_hit rest mx my in
    if is_over mx my this then hit_at mx my win this else further
