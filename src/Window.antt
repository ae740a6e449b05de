-- ===== src/Window.antt =====
-- src/kernel/window.c: the list of windows and the event queue of each.
-- A pointer to a window is a number, 0 is NULL, and the windows are a store; the chain of `next`
-- pointers from `window_list` is a list of pointers.
pub mod Events
pub mod Pop
pub mod Dirty
pub mod Cover
pub mod Redraw
mod Tests
use zoho_os.Prelude.{
  ℕ, ◌+◌, ◌%◌, ◌^◌, Bool, true, false, not, List, [], ◌∷◌, Option, none, some, arith, ◌==◌,
  if◌then◌else◌, update,
}

-- `gui_event_t`
pub record GuiEvent : Type 0 where
  pub type' : ℕ
  pub x : ℕ
  pub y : ℕ
  pub data' : ℕ

-- `window_t`
pub record Window : Type 0 where
  pub id : ℕ
  pub x : ℕ
  pub y : ℕ
  pub w : ℕ
  pub h : ℕ
  pub title_color : ℕ
  pub bg_color : ℕ
  pub buffer : ℕ
  pub owner_pid : ℕ
  pub dirty : Bool
  pub destroyed : Bool
  pub refcount : ℕ
  pub event_queue : ℕ → GuiEvent
  pub event_head : ℕ
  pub event_tail : ℕ

pub record Desktop : Type 0 where
  pub windows : ℕ → Window
  pub window_list : List ℕ

pub set_window : ℕ → Window → Desktop → Desktop
set_window win new d = record d { windows = update d.windows win new }

-- The room of `event_queue`.
abbrev pub event_slots : ℕ
event_slots = 16

unfoldable pub window_push_event : ℕ → GuiEvent → Desktop → Desktop
unfolding set_window
window_push_event win event d =
    let this = d.windows win in
    let next = (this.event_tail + 1) % event_slots in
    if next == this.event_head
    then d
    else set_window win
        (record this {
          event_queue = update this.event_queue this.event_tail event;
          event_tail = next;
        })
        d

-- The walk along the list to the first window with an id, 0 if there is none.
unfoldable pub find_window : (ℕ → Window) → List ℕ → ℕ → ℕ
find_window windows [] id = 0
find_window windows (curr ∷ rest) id =
    let further = find_window windows rest id in if (windows curr).id == id then curr else further

unfoldable pub window_get_by_id : ℕ → Desktop → ℕ
unfolding find_window
window_get_by_id id d =
    let curr = find_window d.windows d.window_list id in
    if curr == 0 then 0 else if (d.windows curr).destroyed then 0 else curr

unfoldable pub window_set_owner : ℕ → ℕ → Desktop → Desktop
unfolding set_window
window_set_owner win owner_pid d =
    if win == 0
    then d
    else if not (d.windows win).destroyed
    then set_window win (record (d.windows win) { owner_pid = owner_pid }) d
    else d

-- What `window_pop_event` returns: -1, 0, or 1 with the event.
pub data Popped : Type 0 where
  failed : Popped
  no_event : Popped
  got : GuiEvent → Popped

unfoldable pub window_pop_event : ℕ → ℕ → Desktop → Popped × Desktop
unfolding find_window set_window
window_pop_event id out_event d =
    let curr = find_window d.windows d.window_list id in
    let this = d.windows curr in
    let taken = record this { event_head = (this.event_head + 1) % event_slots } in
    if out_event == 0
    then (failed, d)
    else if curr == 0
    then (failed, d)
    else if this.destroyed
    then (failed, d)
    else if this.event_head == this.event_tail
    then (no_event, d)
    else (got (this.event_queue this.event_head), set_window curr taken d)
