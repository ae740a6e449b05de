-- ===== src/Mouse.antt =====
-- src/kernel/mouse.c: the packets of the mouse and the position of the cursor.
-- `mouse_byte` holds bytes of 0 to 255; as an `int8_t`, one of 128 or more stands for itself less 256.
-- The position is two `int32_t`: the value c is the number c + 2 ^ 31, so that numbers compare as C's
-- integers do. A counter that nothing reads is left out.
mod Tests
use zoho_os.Prelude.{
  ℕ, ◌+◌, ◌-◌, ◌/◌, ◌%◌, ◌^◌, ◌≤◌, ◌<◌, ◌≡◌, Bool, true, false, not, ◌||◌, List, [], ◌∷◌, arith,
  ◌==◌, ltb, leb, Bool-cases, inl, inr, refl, if◌then◌else◌, update,
}

-- `mouse_cycle`, `mouse_byte`, `mouse_x` and `mouse_y`.
pub record Mouse : Type 0 where
  pub mouse_cycle : ℕ
  pub mouse_byte : ℕ → ℕ
  pub mouse_x : ℕ
  pub mouse_y : ℕ

-- A bit of a byte that the handler tests, by the value of the bit.
abbrev pub has_bit : ℕ → ℕ → Bool
has_bit byte value = (byte / value % 2) == 1

-- How far below its byte a movement is: 256 for the sign of the `int8_t`, 256 for the flag.
abbrev pub below : ℕ → Bool → ℕ
below byte flag = (if leb 128 byte then 256 else 0) + (if flag then 256 else 0)

-- The `int32_t` 0
abbrev pub origin : ℕ
origin = 2 ^ 31

-- `if (v < 0) v = 0; if (v > high) v = high;`
abbrev pub clamp : ℕ → ℕ → ℕ
clamp high v =
    let w = if ltb v origin then origin else v in if ltb (origin + high) w then origin + high else w

-- What the handler does with a packet of three bytes.
unfoldable pub use_packet : Mouse → Mouse
use_packet m =
    let flags = m.mouse_byte 0 in
    let dx = m.mouse_byte 1 in
    let dy = m.mouse_byte 2 in
    let moved = record m {
      mouse_x = clamp 1024 (m.mouse_x + dx - below dx (has_bit flags 16));
      mouse_y = clamp 768 (m.mouse_y + below dy (has_bit flags 32) - dy);
    } in
    if has_bit flags 128 || has_bit flags 64 then m else moved

-- `mouse_handler`, with what the ports 0x64 and 0x60 give.
unfoldable pub mouse_handler : ℕ → ℕ → Mouse → Mouse
unfolding use_packet
mouse_handler status byte m =
    let next = record m {
      mouse_byte = update m.mouse_byte m.mouse_cycle byte;
      mouse_cycle = m.mouse_cycle + 1;
    } in
    if not (has_bit status 1) || not (has_bit status 32)
    then m
    else if next.mouse_cycle == 3
    then use_packet (record next { mouse_cycle = 0 })
    else next

unfoldable pub mouse_get_buttons : Mouse → ℕ
mouse_get_buttons m = m.mouse_byte 0 % 8

-- Interrupts in a row, by what the two ports give.
unfoldable pub interrupts : List (ℕ × ℕ) → Mouse → Mouse
unfolding mouse_handler
interrupts [] m = m
interrupts ((status, byte) ∷ rest) m = interrupts rest (mouse_handler status byte m)

-- The next byte has a place, and the position is from 0 to 1024 across and from 0 to 768 down.
pub record InBounds (m : Mouse) : Type 0 where
  pub cycle : m.mouse_cycle < 3
  pub left : origin ≤ m.mouse_x
  pub right : m.mouse_x ≤ origin + 1024
  pub top : origin ≤ m.mouse_y
  pub bottom : m.mouse_y ≤ origin + 768

clamp_bounds : (high v : ℕ) → (origin ≤ clamp high v) × (clamp high v ≤ origin + high)
clamp_bounds high v = ground arith

use_packet-InBounds : (m : Mouse) → InBounds m → InBounds (use_packet m)
unfolding use_packet
use_packet-InBounds m s =
    elim (Bool-cases (has_bit (m.mouse_byte 0) 128 || has_bit (m.mouse_byte 0) 64)) [
      | inl skipped ↦ rw skipped s
      | inr used ↦
          let dx = m.mouse_byte 1 in
          let dy = m.mouse_byte 2 in
          let x = clamp_bounds 1024 (m.mouse_x + dx - below dx (has_bit (m.mouse_byte 0) 16)) in
          let y = clamp_bounds 768 (m.mouse_y + below dy (has_bit (m.mouse_byte 0) 32) - dy) in
          rw used (record { cycle = s.cycle; left = x.0; right = x.1; top = y.0; bottom = y.1 })
    ]

accepted : ℕ → ℕ → Mouse → Mouse
accepted byte cycle m = record m {
  mouse_byte = update m.mouse_byte m.mouse_cycle byte;
  mouse_cycle = cycle;
}

accepted-InBounds :
    (byte cycle : ℕ) (m : Mouse) → cycle < 3 → InBounds m → InBounds (accepted byte cycle m)
unfolding accepted
accepted-InBounds byte cycle m h s = record {
  cycle = h;
  left = s.left;
  right = s.right;
  top = s.top;
  bottom = s.bottom;
}

handler_cases :
    (status byte : ℕ) (m : Mouse)
    → mouse_handler status byte m ≡ (
        if not (has_bit status 1) || not (has_bit status 32)
        then m
        else if (m.mouse_cycle + 1) == 3
        then use_packet (accepted byte 0 m)
        else accepted byte (m.mouse_cycle + 1) m)
unfolding mouse_handler accepted
handler_cases status byte m = refl

mouse_handler-InBounds :
    (status byte : ℕ) (m : Mouse) → InBounds m → InBounds (mouse_handler status byte m)
mouse_handler-InBounds status byte m s =
    rw (handler_cases status byte m)
      (elim (Bool-cases (not (has_bit status 1) || not (has_bit status 32))) [
        | inl h ↦ rw h s
        | inr h ↦ rw h (elim (Bool-cases ((m.mouse_cycle + 1) == 3)) [
          | inl last ↦
              rw last (
                use_packet-InBounds (accepted byte 0 m)
                  (accepted-InBounds byte 0 m (omega arith) s))
          | inr more ↦
              let h : m.mouse_cycle + 1 < 3 = ground (arith, more, s.cycle) in
              rw more (accepted-InBounds byte (m.mouse_cycle + 1) m h s)
        ])
      ])

-- Any interrupts, whatever the ports give, keep the position from 0 to 1024 across and from 0 to 768 down,
-- and the number of bytes of an unfinished packet below three.
pub interrupts-InBounds : (is : List (ℕ × ℕ)) (m : Mouse) → InBounds m → InBounds (interrupts is m)
unfolding interrupts
interrupts-InBounds [] m s = s
interrupts-InBounds ((status, byte) ∷ rest) m s =
    interrupts-InBounds rest (mouse_handler status byte m) (mouse_handler-InBounds status byte m s)

-- The position after a movement by `byte` less `b`, if it is to stay between 0 and `high`.
pub data Moved (high old byte b : ℕ) (new : ℕ) : Type 0 where
  at_low : old + byte < origin + b → new ≡ origin → Moved high old byte b new
  inside :
      origin + b ≤ old + byte
      → old + byte ≤ origin + high + b
      → new + b ≡ old + byte
      → Moved high old byte b new
  at_high : origin + high + b < old + byte → new ≡ origin + high → Moved high old byte b new

clamp-Moved :
    (high old byte b : ℕ)
    → origin ≤ old
    → b ≤ 512
    → Moved high old byte b (clamp high (old + byte - b))
clamp-Moved high old byte b h l = elim (Bool-cases (ltb (old + byte) (origin + b))) [
  | inl low ↦ at_low (ground (arith, low)) (ground (arith, low, h, l))
  | inr more ↦ elim (Bool-cases (ltb (origin + high + b) (old + byte))) [
    | inl far ↦ at_high (ground (arith, far)) (ground (arith, far))
    | inr near ↦ inside (ground (arith, more)) (ground (arith, near)) (ground (arith, more, near))
  ]
]

below_le : (byte : ℕ) (flag : Bool) → below byte flag ≤ 512
below_le byte flag = ground arith

-- A packet without overflow, of which no byte was there yet, moves the position by its bytes, and the next
-- byte begins a packet.
pub packet_moves :
    (flags dx dy x y : ℕ) (bytes : ℕ → ℕ)
    → has_bit flags 128 ≡ false
    → has_bit flags 64 ≡ false
    → origin ≤ x
    → origin ≤ y
    → dy < 256
    → let m : Mouse = record { mouse_cycle = 0; mouse_byte = bytes; mouse_x = x; mouse_y = y } in
      let m' = interrupts ((33, flags) ∷ (33, dx) ∷ (33, dy) ∷ []) m in
      (m'.mouse_cycle ≡ 0)
      × Moved 1024 x dx (below dx (has_bit flags 16)) m'.mouse_x
      × Moved 768 y (below dy (has_bit flags 32)) dy m'.mouse_y
unfolding interrupts mouse_handler use_packet
packet_moves flags dx dy x y bytes a b left top small = rw a (
    rw b (
      refl,
      clamp-Moved 1024 x dx (below dx (has_bit flags 16)) left (below_le dx (has_bit flags 16)),
      clamp-Moved 768 y (below dy (has_bit flags 32)) dy top (omega arith),
    ))
