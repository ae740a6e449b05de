-- ===== src/Window/Pop.antt =====
-- src/kernel/window.c: `window_pop_event` and `window_get_by_id`, by the id of a window.
use zoho_os.Prelude.{
  ℕ, ◌+◌, ◌%◌, ◌≡◌, ◌≢◌, refl, ap, ◌∙◌, true, false, List, [], ◌∷◌, ◌++◌, arith, ◌⊎◌, inl, inr,
  Nat-cases, update, update_self, update_ne,
}
use zoho_os.Window.{
  GuiEvent, Window, Desktop, event_slots, window_pop_event, window_get_by_id, find_window, Popped,
  failed, no_event, got, set_window,
}
use zoho_os.Window.Events.{ring, waiting, pending, InRing}

-- No window of a part of the list has the id.
abbrev pub NoneHas : (ℕ → Window) → ℕ → List ℕ → Type 0
NoneHas windows id [] = Unit {0}
NoneHas windows id (a ∷ rest) = ((windows a).id ≢ id) × NoneHas windows id rest

find_window-first :
    (windows : ℕ → Window) (id c : ℕ) (before after : List ℕ)
    → NoneHas windows id before
    → (windows c).id ≡ id
    → find_window windows (before ++ c ∷ after) id ≡ c
unfolding find_window
find_window-first windows id c [] after none_has e = ground (arith, e)
find_window-first windows id c (a ∷ rest) after none_has e =
    ground (arith, none_has.0, find_window-first windows id c rest after none_has.1 e)

find_window-none :
    (windows : ℕ → Window) (id : ℕ) (list : List ℕ)
    → NoneHas windows id list
    → find_window windows list id ≡ 0
unfolding find_window
find_window-none windows id [] none_has = refl
find_window-none windows id (a ∷ rest) none_has =
    ground (arith, none_has.0, find_window-none windows id rest none_has.1)

-- The first window with an id.
pub record IsFirst (d : Desktop) (id c : ℕ) : Type 0 where
  pub before : List ℕ
  pub after : List ℕ
  pub listed : d.window_list ≡ before ++ c ∷ after
  pub none_before : NoneHas d.windows id before
  pub has_id : (d.windows c).id ≡ id
  pub not_null : c ≢ 0

find-IsFirst :
    (d : Desktop) (id c : ℕ) → IsFirst d id c → find_window d.windows d.window_list id ≡ c
find-IsFirst d id c f =
    ap (λ l. find_window d.windows l id) f.listed
    ∙ find_window-first d.windows id c f.before f.after f.none_before f.has_id

-- What is to come of a pop from a queue of events.
abbrev pub Dequeued : List GuiEvent → ℕ → Desktop → Popped → Desktop → Type 0
Dequeued [] c d answer d' = (answer ≡ no_event) × (d' ≡ d)
Dequeued (e ∷ es) c d answer d' =
    (answer ≡ got e)
    × (pending (d'.windows c) ≡ es)
    × InRing (d'.windows c)
    × ((k : ℕ) → k ≢ c → d'.windows k ≡ d.windows k)
    × (d'.window_list ≡ d.window_list)

-- The window when its oldest event is taken.
abbrev taken : Window → Window
taken w = record w { event_head = (w.event_head + 1) % event_slots }

pop_destroyed :
    (id out c : ℕ) (d : Desktop)
    → find_window d.windows d.window_list id ≡ c
    → c ≡ 0 ⊎ ((d.windows c).destroyed ≡ true)
    → window_pop_event id out d ≡ (failed, d)
unfolding window_pop_event
pop_destroyed id out c d e h = rw e (ground (arith, h))

pop_none :
    (id out c : ℕ) (d : Desktop)
    → find_window d.windows d.window_list id ≡ c
    → out ≢ 0
    → c ≢ 0
    → (d.windows c).destroyed ≡ false
    → (d.windows c).event_head ≡ (d.windows c).event_tail
    → window_pop_event id out d ≡ (no_event, d)
unfolding window_pop_event
pop_none id out c d e o n h q = rw e (ground (arith, o, n, h, q))

pop_one :
    (id out c : ℕ) (d : Desktop)
    → find_window d.windows d.window_list id ≡ c
    → out ≢ 0
    → c ≢ 0
    → (d.windows c).destroyed ≡ false
    → (d.windows c).event_head ≢ (d.windows c).event_tail
    → window_pop_event id out d ≡ (
      got ((d.windows c).event_queue (d.windows c).event_head),
      record d { windows = update d.windows c (taken (d.windows c)) },
    )
unfolding window_pop_event set_window
pop_one id out c d e o n h q = rw e (ground (arith, o, n, h, q))

-- `window_pop_event`, with somewhere to put the event, by the id of a window that is not destroyed:
-- no event if none waits, else the oldest, which then no longer waits; no other window changes.
pub window_pop_event-Dequeued :
    (id out c : ℕ) (d : Desktop)
    → IsFirst d id c
    → out ≢ 0
    → (d.windows c).destroyed ≡ false
    → InRing (d.windows c)
    → Dequeued
        (pending (d.windows c))
        c
        d
        (window_pop_event id out d).0
        (window_pop_event id out d).1
window_pop_event-Dequeued id out c d first o alive r =
    let w = d.windows c in
    let at' = find-IsFirst d id c first in
    elim (Nat-cases (waiting w)) [
      | inl e ↦
          rw (pop_none id out c d at' o first.not_null alive (omega (arith, r, e)))
            (rw e (refl, refl))
      | inr (m, e) ↦
          let less : waiting (taken w) ≡ m = omega (arith, r, e) in
          rw (pop_one id out c d at' o first.not_null alive (λ z. omega (arith, r, e, z))) (
            rw e (
              rw (update_self d.windows c (taken w)) (
                refl,
                ap (ring w.event_queue ((w.event_head + 1) % event_slots)) less,
                (omega arith, r.1),
                (λ k ne. update_ne d.windows c k (taken w) ne),
                refl,
              )))
    ]

-- If no window has the id, or the first one that has it is destroyed, `window_pop_event` returns -1,
-- `window_get_by_id` NULL, and nothing changes.
pub window_pop_event_fails :
    (id out : ℕ) (d : Desktop)
    → NoneHas d.windows id d.window_list
      ⊎ ((c : ℕ) × IsFirst d id c × ((d.windows c).destroyed ≡ true))
    → (window_pop_event id out d ≡ (failed, d)) × (window_get_by_id id d ≡ 0)
unfolding window_get_by_id
window_pop_event_fails id out d (inl none_has) =
    let e = find_window-none d.windows id d.window_list none_has in
    (pop_destroyed id out 0 d e (inl refl), rw e refl)
window_pop_event_fails id out d (inr (c, first, gone)) =
    let e = find-IsFirst d id c first in
    (pop_destroyed id out c d e (inr gone), rw e (ground (arith, gone)))
