-- ===== src/Window/Events.antt =====
-- src/kernel/window.c: the event queue of a window is a queue of at most 15 events.
use zoho_os.Prelude.{
  ℕ, zero, suc, ◌+◌, ◌-◌, ◌%◌, ◌<◌, ◌≡◌, ◌≢◌, refl, ap, ◌∙◌, true, false, List, [], ◌∷◌, ◌++◌,
  length, arith, ◌==◌, if◌then◌else◌, Bool-cases, inl, inr, update, update_self, update_ne, ltb,
}
use zoho_os.Window.{GuiEvent, Window, Desktop, event_slots, window_push_event, set_window}

-- `n` events from place `i` of a ring on.
abbrev pub ring : (ℕ → GuiEvent) → ℕ → ℕ → List GuiEvent
ring q i zero = []
ring q i (suc n) = q i ∷ ring q ((i + 1) % event_slots) n

abbrev pub waiting : Window → ℕ
waiting w = (w.event_tail + event_slots - w.event_head) % event_slots

-- The events that wait, the oldest first.
abbrev pub pending : Window → List GuiEvent
pending w = ring w.event_queue w.event_head (waiting w)

-- Both indices are places of the ring.
abbrev pub InRing : Window → Type 0
InRing w = (w.event_head < event_slots) × (w.event_tail < event_slots)

ring-update :
    (q : ℕ → GuiEvent) (i n t : ℕ) (e : GuiEvent)
    → i < event_slots
    → n < event_slots
    → t ≡ (i + n) % event_slots
    → ring (update q t e) i (suc n) ≡ ring q i n ++ e ∷ []
ring-update q i zero t e hi hn ht = ground (arith, ht, hi)
ring-update q i (suc n) t e hi hn ht =
    let further =
      ring-update q ((i + 1) % event_slots) n t e (omega arith) (omega arith) (omega (arith, ht)) in
    let here : update q t e i ≡ q i = update_ne q t i e (λ z. omega (arith, z, ht)) in
    rw further (ap (λ x. x ∷ (ring q ((i + 1) % event_slots) n ++ e ∷ [])) here)

length-ring : (q : ℕ → GuiEvent) (i n : ℕ) → length (ring q i n) ≡ n
length-ring q i zero = refl
length-ring q i (suc n) = ap suc (length-ring q ((i + 1) % event_slots) n)

-- The window when an event is put behind the others.
abbrev pushed : Window → GuiEvent → Window
pushed w event = record w {
  event_queue = update w.event_queue w.event_tail event;
  event_tail = (w.event_tail + 1) % event_slots;
}

pending-pushed :
    (w : Window) (event : GuiEvent)
    → InRing w
    → (w.event_tail + 1) % event_slots ≢ w.event_head
    → (pending (pushed w event) ≡ pending w ++ event ∷ []) × (waiting w < 15)
pending-pushed w event r room =
    let longer : waiting (pushed w event) ≡ suc (waiting w) = omega (arith, r, room) in
    let fits : waiting w < 15 = omega (arith, r, room) in
    (
      ap (ring (update w.event_queue w.event_tail event) w.event_head) longer
          ∙ ring-update w.event_queue w.event_head (waiting w) w.event_tail event r.0
              (omega (arith, fits)) (omega (arith, r)),
      fits,
    )

waiting-full :
    (w : Window) → InRing w → (w.event_tail + 1) % event_slots ≡ w.event_head → waiting w ≡ 15
waiting-full w r full = omega (arith, r, full)

push_full :
    (win : ℕ) (event : GuiEvent) (d : Desktop)
    → ((((d.windows win).event_tail + 1) % event_slots) == (d.windows win).event_head) ≡ true
    → window_push_event win event d ≡ d
unfolding window_push_event
push_full win event d h = ground (arith, h)

push_room :
    (win : ℕ) (event : GuiEvent) (d : Desktop)
    → ((((d.windows win).event_tail + 1) % event_slots) == (d.windows win).event_head) ≡ false
    → window_push_event win event d
      ≡ record d { windows = update d.windows win (pushed (d.windows win) event) }
unfolding window_push_event set_window
push_room win event d h = ground (arith, h)

-- What a push does to a queue of events: at most 15 wait, and one that finds 15 is dropped.
unfoldable pub enqueued : List GuiEvent → GuiEvent → List GuiEvent
enqueued es event = if ltb (length es) 15 then es ++ event ∷ [] else es

-- `window_push_event` puts the event behind the others that wait for a window, or drops it if 15
-- wait, keeps the indices in the ring, and changes no other window and not the list of windows.
pub window_push_event-pending :
    (win : ℕ) (event : GuiEvent) (d : Desktop)
    → InRing (d.windows win)
    → (pending ((window_push_event win event d).windows win)
        ≡ enqueued (pending (d.windows win)) event)
      × InRing ((window_push_event win event d).windows win)
      × ((k : ℕ) → k ≢ win → (window_push_event win event d).windows k ≡ d.windows k)
      × ((window_push_event win event d).window_list ≡ d.window_list)
unfolding enqueued
window_push_event-pending win event d r =
    let w = d.windows win in
    let len = length-ring w.event_queue w.event_head (waiting w) in
    elim (Bool-cases (((w.event_tail + 1) % event_slots) == w.event_head)) [
      | inl full ↦
          let n = waiting-full w r (ground (arith, full)) in
          let b : ltb (length (pending w)) 15 ≡ false = ground (arith, len, n) in
          rw (push_full win event d full) (rw b (refl, r, (λ k ne. refl), refl))
      | inr room ↦
          let p = pending-pushed w event r (ground (arith, room)) in
          let b : ltb (length (pending w)) 15 ≡ true = ground (arith, len, p.1) in
          rw (push_room win event d room) (
            rw (update_self d.windows win (pushed w event)) (
              rw b (
                p.0,
                (r.0, omega arith),
                (λ k ne. update_ne d.windows win k (pushed w event) ne),
                refl,
              )))
    ]
