-- ===== src/Resilient/Window/Residues.antt =====
-- libs/resilient-http-client/window.go: a slot of the ring against the history of what was added to
-- it. The slots of time that share a slot of the ring are a residue class modulo ten.
use golang_basics.Base.{
  ℕ, zero, suc, ◌+◌, ◌%◌, ◌≤◌, ◌<◌, ◌≡◌, refl, List, [], ◌∷◌, ltb, ◌==◌, if◌then◌else◌, arith,
}
use golang_basics.Resilient.Window.{WindowSlot, window_slots, zero_slot, add_slot}

-- One count of a slot, `a` or `b`, and how an addition changes it.
pub record IsCount (f : WindowSlot → ℕ) : Type 0 where
  pub of_zero : f zero_slot ≡ 0
  pub of_add :
      (s : WindowSlot) (idx a b : ℕ)
      → f (add_slot s idx a b)
        ≡ (if s.idx == idx then f s else 0) + f (record { idx = idx; a = a; b = b })

pub a-IsCount : IsCount (λ s. s.a)
unfolding add_slot
a-IsCount = record { of_zero = refl; of_add = λ s idx a b. ground arith }

pub b-IsCount : IsCount (λ s. s.b)
unfolding add_slot
b-IsCount = record { of_zero = refl; of_add = λ s idx a b. ground arith }

pub idx-add_slot : (s : WindowSlot) (idx a b : ℕ) → (add_slot s idx a b).idx ≡ idx
unfolding add_slot
idx-add_slot s idx a b = ground arith

module _ (f : WindowSlot → ℕ) where
  -- What an entry adds to the sum of the window that ends in slot `k` of time.
  abbrev pub contrib : ℕ → WindowSlot → ℕ
  contrib k s = if ltb k (s.idx + window_slots) then f s else 0

  abbrev pub total : ℕ → List WindowSlot → ℕ
  total k [] = 0
  total k (e ∷ es) = contrib k e + total k es

  -- The part of the history that falls into slot `j` of the ring.
  abbrev pub residue : ℕ → ℕ → List WindowSlot → ℕ
  residue j k [] = 0
  residue j k (e ∷ es) = (if e.idx % window_slots == j then contrib k e else 0) + residue j k es

  -- Of `n` slots from `j`.
  abbrev pub residues : ℕ → ℕ → ℕ → List WindowSlot → ℕ
  residues j zero k es = 0
  residues j (suc n) k es = residue j k es + residues (suc j) n k es

  residues-nil : (j n k : ℕ) → residues j n k [] ≡ 0
  residues-nil j zero k = refl
  residues-nil j (suc n) k = omega (arith, residues-nil (suc j) n k)

  -- An entry counts in the one slot that its time falls into.
  residues_below :
      (j n k : ℕ) (e : WindowSlot) (es : List WindowSlot)
      → e.idx % window_slots < j
      → residues j n k (e ∷ es) ≡ residues j n k es
  residues_below j zero k e es h = refl
  residues_below j (suc n) k e es h = ground (arith, residues_below (suc j) n k e es)

  residues_within :
      (j n k : ℕ) (e : WindowSlot) (es : List WindowSlot)
      → j ≤ e.idx % window_slots
      → e.idx % window_slots < j + n
      → residues j n k (e ∷ es) ≡ contrib k e + residues j n k es
  residues_within j zero k e es h g = absurd (omega arith)
  residues_within j (suc n) k e es h g =
      ground (arith, residues_within (suc j) n k e es, residues_below (suc j) n k e es)

  pub residues-total : (k : ℕ) (es : List WindowSlot) → residues 0 window_slots k es ≡ total k es
  residues-total k [] = residues-nil 0 window_slots k
  residues-total k (e ∷ es) =
      omega (arith, residues_within 0 window_slots k e es, residues-total k es)
