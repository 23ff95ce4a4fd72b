-- ===== src/Resilient/Window.antt =====
-- libs/resilient-http-client/window.go: two counts over a sliding time window of ten slots.
-- A time is in nanoseconds since the epoch.
mod Residues
pub mod Sliding
use golang_basics.Base.{
  ℕ, ◌+◌, ◌/◌, ◌%◌, max, List, [], ◌∷◌, ltb, ◌==◌, if◌then◌else◌, get_or, set, replicate,
}

abbrev pub window_slots : ℕ
window_slots = 10

pub record WindowSlot : Type 0 where
  pub idx : ℕ
  pub a : ℕ
  pub b : ℕ

pub record Window : Type 0 where
  pub slot : ℕ
  pub slots : List WindowSlot

-- windowSlot{}
abbrev pub zero_slot : WindowSlot
zero_slot = record { idx = 0; a = 0; b = 0 }

unfoldable pub new_window : ℕ → Window
new_window length = record {
  slot = max (length / window_slots) 1;
  slots = replicate window_slots zero_slot;
}

-- The slot of `idx`, cleared first if it counts another time.
unfoldable pub add_slot : WindowSlot → ℕ → ℕ → ℕ → WindowSlot
add_slot s idx a b =
    let s' = if s.idx == idx then s else record zero_slot { idx = idx } in
    record s' { a = s'.a + a; b = s'.b + b }

unfoldable pub add : Window → ℕ → ℕ → ℕ → Window
unfolding add_slot
add w now a b =
    let idx = now / w.slot in
    let i = idx % window_slots in
    record w { slots = set w.slots i (add_slot (get_or w.slots i zero_slot) idx a b) }

-- The loop of `sum`; `idx-s.idx < windowSlots`, with the subtraction moved across.
unfoldable pub sum_slots : ℕ → List WindowSlot → ℕ × ℕ
sum_slots idx [] = (0, 0)
sum_slots idx (s ∷ ss) =
    let (a, b) = sum_slots idx ss in
    if ltb idx (s.idx + window_slots) then (s.a + a, s.b + b) else (a, b)

unfoldable pub sum : Window → ℕ → ℕ × ℕ
unfolding sum_slots
sum w now = sum_slots (now / w.slot) w.slots

unfoldable pub reset : Window → Window
reset w = record w { slots = replicate window_slots zero_slot }
