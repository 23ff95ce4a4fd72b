-- ===== src/Resilient/Window/Sliding.antt =====
-- libs/resilient-http-client/window.go against the history of additions: what `sum` promises.
use golang_basics.Base.{
  ℕ, zero, suc, ◌+◌, ◌/◌, ◌%◌, ◌≤◌, ◌<◌, ◌≡◌, refl, ◌⊎◌, inl, inr, ◌≢◌, List, [], ◌∷◌, ltb,
  if◌then◌else◌, get_or, set, replicate, length, length-set, map, max, ap, ap₂, sym, ◌∙◌, arith,
}
use golang_basics.Resilient.Window.{
  WindowSlot, Window, window_slots, zero_slot, new_window, add_slot, add, sum_slots, sum, reset,
}
use golang_basics.Resilient.Window.Residues.{
  IsCount, a-IsCount, b-IsCount, idx-add_slot, contrib, total, residue, residues, residues-total,
}

abbrev entry : ℕ → ℕ → ℕ → WindowSlot
entry idx a b = record { idx = idx; a = a; b = b }

module _ (f : WindowSlot → ℕ) where
  -- Slot `j` of the ring counts its residue class for every window that ends at `last` or later,
  -- and either belongs to the class or is still empty.
  pub record SlotOk (last : ℕ) (es : List WindowSlot) (j : ℕ) (s : WindowSlot) : Type 0 where
    pub counts : (k : ℕ) → last ≤ k → contrib f k s ≡ residue f j k es
    pub place : ((s.idx % window_slots ≡ j) × (s.idx ≤ last)) ⊎ (f s ≡ 0)

  abbrev pub SlotsOk : ℕ → List WindowSlot → ℕ → List WindowSlot → Type 0
  SlotsOk last es j [] = Unit {0}
  SlotsOk last es j (s ∷ ss) = SlotOk last es j s × SlotsOk last es (suc j) ss

  SlotOk-other :
      (last idx a b j : ℕ) (es : List WindowSlot) (s : WindowSlot)
      → last ≤ idx
      → idx % window_slots ≢ j
      → SlotOk last es j s
      → SlotOk idx (entry idx a b ∷ es) j s
  SlotOk-other last idx a b j es s h ne ok = record {
    counts = λ k g. ground (arith, ok.counts k);
    place = ground arith;
  }

  SlotsOk-other :
      (last idx a b j : ℕ) (es ss : List WindowSlot)
      → last ≤ idx
      → idx % window_slots < j
      → SlotsOk last es j ss
      → SlotsOk idx (entry idx a b ∷ es) j ss
  SlotsOk-other last idx a b j es [] h lt ok = tt
  SlotsOk-other last idx a b j es (s ∷ ss) h lt ok = (
    SlotOk-other last idx a b j es s h (omega arith) ok.0,
    SlotsOk-other last idx a b (suc j) es ss h (omega arith) ok.1,
  )

  sum_f : ℕ → List WindowSlot → ℕ
  sum_f k [] = 0
  sum_f k (s ∷ ss) = contrib f k s + sum_f k ss

  module _ (c : IsCount f) where
    -- A slot with another time is out of the window, or empty: clearing it loses nothing.
    SlotOk-add :
        (last idx a b j : ℕ) (es : List WindowSlot) (s : WindowSlot)
        → last ≤ idx
        → idx % window_slots ≡ j
        → SlotOk last es j s
        → SlotOk idx (entry idx a b ∷ es) j (add_slot s idx a b)
    SlotOk-add last idx a b j es s h e ok = record {
      counts = λ k g. ground (arith, ok.counts k, c.of_add s idx a b, idx-add_slot s idx a b);
      place = inl (ground (arith, idx-add_slot s idx a b), ground (arith, idx-add_slot s idx a b));
    }

    SlotsOk-set :
        (last idx a b j i : ℕ) (es ss : List WindowSlot)
        → last ≤ idx
        → idx % window_slots ≡ j + i
        → SlotsOk last es j ss
        → SlotsOk idx (entry idx a b ∷ es) j (set ss i (add_slot (get_or ss i zero_slot) idx a b))
    SlotsOk-set last idx a b j i es [] h e ok = tt
    SlotsOk-set last idx a b j zero es (s ∷ ss) h e ok = (
      SlotOk-add last idx a b j es s h (omega arith) ok.0,
      SlotsOk-other last idx a b (suc j) es ss h (omega arith) ok.1,
    )
    SlotsOk-set last idx a b j (suc i) es (s ∷ ss) h e ok = (
      SlotOk-other last idx a b j es s h (omega arith) ok.0,
      SlotsOk-set last idx a b (suc j) i es ss h (omega arith) ok.1,
    )

    SlotsOk-replicate : (j n : ℕ) → SlotsOk 0 [] j (replicate n zero_slot)
    SlotsOk-replicate j zero = tt
    SlotsOk-replicate j (suc n) = (
      record { counts = λ k g. ground (arith, c.of_zero); place = inr c.of_zero },
      SlotsOk-replicate (suc j) n,
    )

  sum_f-residues :
      (last k j : ℕ) (es ss : List WindowSlot)
      → last ≤ k
      → SlotsOk last es j ss
      → sum_f k ss ≡ residues f j (length ss) k es
  unfolding sum_f
  sum_f-residues last k j es [] h ok = refl
  sum_f-residues last k j es (s ∷ ss) h ok =
      omega (arith, ok.0.counts k h, sum_f-residues last k (suc j) es ss h ok.1)

-- A window that has counted the entries `es`, the latest in slot `last` of time.
pub record Counts (w : Window) (last : ℕ) (es : List WindowSlot) : Type 0 where
  pub size : length w.slots ≡ window_slots
  pub of_a : SlotsOk (λ s. s.a) last es 0 w.slots
  pub of_b : SlotsOk (λ s. s.b) last es 0 w.slots

sum_slots-sum_f :
    (k : ℕ) (ss : List WindowSlot) → sum_slots k ss ≡ (sum_f (λ s. s.a) k ss, sum_f (λ s. s.b) k ss)
unfolding sum_slots sum_f
sum_slots-sum_f k [] = refl
sum_slots-sum_f k (s ∷ ss) = ground (arith, sum_slots-sum_f k ss)

pub sum-Counts :
    (w : Window) (last now : ℕ) (es : List WindowSlot)
    → Counts w last es
    → last ≤ now / w.slot
    → sum w now ≡ (total (λ s. s.a) (now / w.slot) es, total (λ s. s.b) (now / w.slot) es)
unfolding sum
sum-Counts w last now es c h = ground (
  arith,
  sum_slots-sum_f (now / w.slot) w.slots,
  sum_f-residues (λ s. s.a) last (now / w.slot) 0 es w.slots h c.of_a,
  sum_f-residues (λ s. s.b) last (now / w.slot) 0 es w.slots h c.of_b,
  residues-total (λ s. s.a) (now / w.slot) es,
  residues-total (λ s. s.b) (now / w.slot) es,
  c.size,
  ap (λ n. residues (λ s. s.a) 0 n (now / w.slot) es) c.size,
  ap (λ n. residues (λ s. s.b) 0 n (now / w.slot) es) c.size,
)

pub new_window-Counts : (len : ℕ) → Counts (new_window len) 0 []
unfolding new_window
new_window-Counts len = record {
  size = refl;
  of_a = SlotsOk-replicate (λ s. s.a) a-IsCount 0 window_slots;
  of_b = SlotsOk-replicate (λ s. s.b) b-IsCount 0 window_slots;
}

pub reset-Counts : (w : Window) → Counts (reset w) 0 []
unfolding reset
reset-Counts w = record {
  size = refl;
  of_a = SlotsOk-replicate (λ s. s.a) a-IsCount 0 window_slots;
  of_b = SlotsOk-replicate (λ s. s.b) b-IsCount 0 window_slots;
}

pub add-Counts :
    (w : Window) (last now a b : ℕ) (es : List WindowSlot)
    → last ≤ now / w.slot
    → Counts w last es
    → Counts (add w now a b) (now / w.slot) (entry (now / w.slot) a b ∷ es)
unfolding add
add-Counts w last now a b es h c = record {
  size = length-set w.slots _ _ ∙ c.size;
  of_a =
      SlotsOk-set (λ s. s.a) a-IsCount last (now / w.slot) a b 0 _ es w.slots h (omega arith)
        c.of_a;
  of_b =
      SlotsOk-set (λ s. s.b) b-IsCount last (now / w.slot) a b 0 _ es w.slots h (omega arith)
        c.of_b;
}

-- The calls of `add` on one window, the latest first.
pub record Added : Type 0 where
  pub at : ℕ
  pub a : ℕ
  pub b : ℕ

abbrev pub IsOrdered : ℕ → List Added → Type 0
IsOrdered now [] = Unit {0}
IsOrdered now (e ∷ es) = (e.at ≤ now) × IsOrdered e.at es

unfoldable pub filled : ℕ → List Added → Window
filled len [] = new_window len
filled len (e ∷ es) = add (filled len es) e.at e.a e.b

-- What was added in the ten slots of time that end with now's.
abbrev pub recent : (Added → ℕ) → ℕ → ℕ → List Added → ℕ
recent f slot now [] = 0
recent f slot now (e ∷ es) =
    (if ltb (now / slot) (e.at / slot + 10) then f e else 0) + recent f slot now es

abbrev entries : ℕ → List Added → List WindowSlot
entries slot = map λ e. entry (e.at / slot) e.a e.b

pub slot-filled : (len : ℕ) (es : List Added) → (filled len es).slot ≡ max (len / 10) 1
unfolding filled add new_window
slot-filled len [] = refl
slot-filled len (e ∷ es) = slot-filled len es

div_mono : (a b n : ℕ) → a ≤ b → a / n ≤ b / n
div_mono a b n h = grind arith

filled-Counts :
    (len now slot : ℕ) (es : List Added)
    → slot ≡ max (len / 10) 1
    → IsOrdered now es
    → (last : ℕ) × (last ≤ now / slot) × Counts (filled len es) last (entries slot es)
unfolding filled
filled-Counts len now slot [] e h = (0, omega arith, new_window-Counts len)
filled-Counts len now slot (c ∷ es) e h =
    let (last, le, counts) = filled-Counts len c.at slot es e h.1 in
    let same : (filled len es).slot ≡ slot = slot-filled len es ∙ sym e in
    (
      c.at / slot,
      div_mono c.at now slot h.0,
      rw same at
          (add-Counts (filled len es) last c.at c.a c.b (entries slot es) (rw same le) counts),
    )

total-entries :
    (f : WindowSlot → ℕ) (slot now : ℕ) (es : List Added)
    → total f (now / slot) (entries slot es)
      ≡ recent (λ e. f (entry (e.at / slot) e.a e.b)) slot now es
total-entries f slot now [] = refl
total-entries f slot now (e ∷ es) = omega (arith, total-entries f slot now es)

-- For a window of any length, filled by calls of `add` in the order of time and read no earlier
-- than the last: however the ring of slots is reused, `sum` is the total of the calls of the last
-- ten slots of time.
pub sum-filled :
    (len now slot : ℕ) (es : List Added)
    → slot ≡ max (len / 10) 1
    → IsOrdered now es
    → sum (filled len es) now ≡ (recent (λ e. e.a) slot now es, recent (λ e. e.b) slot now es)
sum-filled len now slot es e h =
    let (last, le, counts) = filled-Counts len now slot es e h in
    let same : (filled len es).slot ≡ slot = slot-filled len es ∙ sym e in
    sum-Counts (filled len es) last now (entries slot es) counts (rw same le)
    ∙ (rw same (
        ap₂ (λ (x y : ℕ). (x, y)) (total-entries (λ s. s.a) slot now es)
          (total-entries (λ s. s.b) slot now es)))
