-- ===== src/Mouse/Tests.antt =====
-- src/kernel/mouse.c: the theorem about interrupts at a concrete packet, and runs of the code.
use zoho_os.Prelude.{ℕ, ◌+◌, ◌≡◌, refl, List, [], ◌∷◌, arith}
use zoho_os.Mouse.{
  origin, Mouse, mouse_handler, use_packet, interrupts, InBounds, interrupts-InBounds,
}

abbrev centre : Mouse
centre = record {
  mouse_cycle = 0;
  mouse_byte = λ i. 0;
  mouse_x = origin + 400;
  mouse_y = origin + 300;
}

-- Five to the right and three up.
abbrev right_up : List (ℕ × ℕ)
right_up = (33, 8) ∷ (33, 5) ∷ (33, 3) ∷ []

-- One to the left: the byte is 255 and the flag for its sign is set.
abbrev one_left : List (ℕ × ℕ)
one_left = (33, 0x18) ∷ (33, 255) ∷ (33, 0) ∷ []

right_up_moves :
    ((interrupts right_up centre).mouse_x ≡ origin + 405)
    × ((interrupts right_up centre).mouse_y ≡ origin + 297)
unfolding interrupts mouse_handler use_packet
right_up_moves = (refl, refl)

-- The sign is counted twice.
one_left_moves : (interrupts one_left centre).mouse_x ≡ origin + 143
unfolding interrupts mouse_handler use_packet
one_left_moves = refl

interrupts-InBounds_example : InBounds (interrupts one_left centre)
interrupts-InBounds_example = interrupts-InBounds one_left centre (record {
  cycle = omega arith;
  left = omega arith;
  right = omega arith;
  top = omega arith;
  bottom = omega arith;
})
