-- ===== src/Window/Tests.antt =====
-- src/kernel/window.c: the theorems about events at a concrete desktop, and runs of the code.
use zoho_os.Prelude.{
  List, zero, suc, ◌+◌, ◌-◌, ◌*◌, length, inr, ℕ, ◌≡◌, ◌≢◌, refl, false, true, [], ◌∷◌, arith, ◌==◌,
  if◌then◌else◌,
}
use zoho_os.Window.Dirty.{bias, Rect, Display, queue_dirty_rect}
use zoho_os.Window.Cover.{Covered}
use zoho_os.Window.Redraw.{queue_dirty_rect-Covered}
use zoho_os.Window.{
  GuiEvent, Window, Desktop, window_push_event, window_pop_event, window_get_by_id,
  window_set_owner, got, find_window,
}
use zoho_os.Window.Events.{pending, enqueued, InRing, window_push_event-pending}
use zoho_os.Window.Pop.{Dequeued, IsFirst, window_pop_event-Dequeued}

abbrev click : ℕ → GuiEvent
click n = record { type' = 1; x = n; y = 0; data' = 1 }

-- The window at 0x20 has id 7; its queue wraps around the ring, with two events in it.
abbrev two_events : Window
two_events = record {
  id = 7;
  x = 10;
  y = 10;
  w = 100;
  h = 50;
  title_color = 0;
  bg_color = 0;
  buffer = 0;
  owner_pid = 3;
  dirty = false;
  destroyed = false;
  refcount = 0;
  event_queue = click;
  event_head = 15;
  event_tail = 1;
}

abbrev desktop : Desktop
desktop = record {
  windows = λ p. if p == 0x20 then two_events else record two_events { id = 8; destroyed = true };
  window_list = 0x10 ∷ 0x20 ∷ [];
}

pending_twice : pending two_events ≡ click 15 ∷ click 0 ∷ []
pending_twice = refl

popped_first : (window_pop_event 7 1 desktop).0 ≡ got (click 15)
unfolding window_pop_event find_window
popped_first = refl

found_by_id : window_get_by_id 7 (window_set_owner 0x20 5 desktop) ≡ 0x20
unfolding window_get_by_id window_set_owner find_window
found_by_id = refl

desktop-IsFirst : IsFirst desktop 7 0x20
desktop-IsFirst = record {
  before = 0x10 ∷ [];
  after = [];
  listed = refl;
  none_before = ((λ e. omega (arith, e)), tt);
  has_id = refl;
  not_null = λ e. omega (arith, e);
}

window_push_event-pending_example :
    (pending ((window_push_event 0x20 (click 9) desktop).windows 0x20)
      ≡ enqueued (pending two_events) (click 9))
    × InRing ((window_push_event 0x20 (click 9) desktop).windows 0x20)
    × ((k : ℕ)
        → k ≢ 0x20
        → (window_push_event 0x20 (click 9) desktop).windows k ≡ desktop.windows k)
    × ((window_push_event 0x20 (click 9) desktop).window_list ≡ desktop.window_list)
window_push_event-pending_example =
    window_push_event-pending 0x20 (click 9) desktop (omega arith, omega arith)

window_pop_event-Dequeued_example :
    Dequeued
      (pending two_events)
      0x20
      desktop
      (window_pop_event 7 1 desktop).0
      (window_pop_event 7 1 desktop).1
window_pop_event-Dequeued_example =
    window_pop_event-Dequeued 7 1 0x20 desktop desktop-IsFirst (λ e. omega (arith, e)) refl
      (omega arith, omega arith)

-- A screen of 1024 by 768, and a rectangle of which a half is on it.
abbrev screen : Rect
screen = record { x = bias; y = bias; w = bias + 1024; h = bias + 768 }

abbrev half_outside : Rect
half_outside = record { x = bias - 10; y = bias + 20; w = bias + 20; h = bias + 5 }

half_outside-Covered : Covered (bias + 3) (bias + 22) (queue_dirty_rect screen half_outside [])
half_outside-Covered =
    queue_dirty_rect-Covered (bias + 3) (bias + 22) screen half_outside []
      (record {
        across = (omega arith, omega arith, omega arith);
        down = (omega arith, omega arith, omega arith);
      })
      (record {
        across = (omega arith, omega arith, omega arith);
        down = (omega arith, omega arith, omega arith);
      })
      tt (omega arith)
      (inr (
        record { across = (omega arith, omega arith); down = (omega arith, omega arith) },
        record { across = (omega arith, omega arith); down = (omega arith, omega arith) },
      ))

half_clipped :
    queue_dirty_rect screen half_outside []
    ≡ (record { x = bias; y = bias + 20; w = bias + 10; h = bias + 5 }) ∷ []
unfolding queue_dirty_rect
half_clipped = refl

abbrev display : Display
display = record { desktop = desktop; dirty_rects = []; width = 1024; height = 768 }

-- Rectangles below each other, that do not meet.
abbrev column : ℕ → List Rect
column zero = []
column (suc n) =
    (record { x = bias + 100; y = bias + n * 10; w = bias + 5; h = bias + 5 }) ∷ column n

-- When 32 of them wait and another one comes, one is left.
others_forgotten : length (queue_dirty_rect screen half_outside (column 32)) ≡ 1
unfolding queue_dirty_rect
others_forgotten = refl
