-- ===== src/Resilient/Budget/Granted.antt =====
-- libs/resilient-http-client/budget.go: when a retry is granted.
use golang_basics.Base.{
  ℕ, ◌/◌, max, ◌≤◌, ◌≡◌, refl, Bool, true, not, Option, some, List, [], ◌∷◌, if◌then◌else◌,
  Bool-cases, inl, inr, ap, ◌∙◌, arith,
}
use golang_basics.Base.Int.{pos, pos_part}
use golang_basics.Base.Float.{Float64}
use golang_basics.Resilient.Config.{TargetConfig}
use golang_basics.Resilient.Window
use golang_basics.Resilient.Window.Sliding.{Added, IsOrdered, filled, recent, sum-filled}
use golang_basics.Resilient.Budget.{RetryBudget, new_retry_budget, request, try_retry}

-- A call on the budget, at a time.
pub data Call : Type 0 where
  requests retries : ℕ → Call

abbrev pub time : Call → ℕ
time (requests t) = t
time (retries t) = t

abbrev pub slot_of : {fl : Float64} → TargetConfig fl → ℕ
slot_of cfg = max (pos_part cfg.retry_budget_window / 10) 1

abbrev pub IsInOrder : ℕ → List Call → Type 0
IsInOrder now [] = Unit {0}
IsInOrder now (c ∷ cs) = (time c ≤ now) × IsInOrder (time c) cs

IsOrdered-later : (t now : ℕ) (log : List Added) → t ≤ now → IsOrdered t log → IsOrdered now log
IsOrdered-later t now [] h o = tt
IsOrdered-later t now (e ∷ es) h o = (omega arith, o.1)

module _ {fl : Float64} where
  abbrev pub call : Option (RetryBudget fl) → Call → Option (RetryBudget fl) × Bool
  call b (requests t) = (request b t, true)
  call b (retries t) = try_retry b t

  -- The budget after the calls, the latest first.
  pub called : Option (RetryBudget fl) → List Call → Option (RetryBudget fl)
  called b [] = b
  called b (c ∷ cs) = (call (called b cs) c).0

  -- What the budget promises: it counts requests and granted retries, and grants a retry unless the
  -- retries of the last ten slots have reached min + ratio × the requests among them.
  abbrev pub unspent : TargetConfig fl → ℕ → List Added → Bool
  unspent cfg t log =
      let requests = recent (λ e. e.a) (slot_of cfg) t log in
      let granted = recent (λ e. e.b) (slot_of cfg) t log in
      not (
        fl.le
          (fl.add (fl.of_int cfg.retry_budget_min_retries)
            (fl.mul cfg.retry_budget_ratio (fl.of_int (pos requests))))
          (fl.of_int (pos granted)))

  pub promised : TargetConfig fl → List Call → List Added
  promised cfg [] = []
  promised cfg (requests t ∷ cs) = record { at = t; a = 1; b = 0 } ∷ promised cfg cs
  promised cfg (retries t ∷ cs) =
      let log = promised cfg cs in
      if unspent cfg t log then record { at = t; a = 0; b = 1 } ∷ log else log

  promised-IsOrdered :
      (cfg : TargetConfig fl) (now : ℕ) (cs : List Call)
      → IsInOrder now cs
      → IsOrdered now (promised cfg cs)
  unfolding promised
  promised-IsOrdered cfg now [] o = tt
  promised-IsOrdered cfg now (requests t ∷ cs) o = (o.0, promised-IsOrdered cfg t cs o.1)
  promised-IsOrdered cfg now (retries t ∷ cs) o =
      let rest = promised-IsOrdered cfg t cs o.1 in
      elim (Bool-cases (unspent cfg t (promised cfg cs))) [
        | inl h ↦ rw h (o.0, rest)
        | inr h ↦ rw h (IsOrdered-later t now (promised cfg cs) o.0 rest)
      ]

  new-window :
      (cfg : TargetConfig fl) (b : RetryBudget fl)
      → new_retry_budget cfg ≡ some b
      → b.w ≡ Window.new_window (pos_part cfg.retry_budget_window)
  unfolding new_retry_budget
  new-window cfg b e = ground arith

  -- A budget has the ratio and the minimum of its configuration.
  abbrev IsOf : TargetConfig fl → RetryBudget fl → Type 0
  IsOf cfg b = (b.ratio ≡ cfg.retry_budget_ratio) × (b.min_retries ≡ cfg.retry_budget_min_retries)

  new-IsOf :
      (cfg : TargetConfig fl) (b : RetryBudget fl) → new_retry_budget cfg ≡ some b → IsOf cfg b
  unfolding new_retry_budget
  new-IsOf cfg b e = (ground arith, ground arith)

  try_retry-filled :
      (cfg : TargetConfig fl) (b : RetryBudget fl) (t : ℕ) (log : List Added)
      → IsOf cfg b
      → IsOrdered t log
      → try_retry (some (record b { w = filled (pos_part cfg.retry_budget_window) log })) t ≡ (
        some (record b {
          w =
              filled
                (pos_part cfg.retry_budget_window)
                (if unspent cfg t log then record { at = t; a = 0; b = 1 } ∷ log else log);
        }),
        unspent cfg t log,
      )
  unfolding try_retry filled
  try_retry-filled cfg b t log (ratio, least) o = ground (
    arith,
    ratio,
    least,
    sum-filled (pos_part cfg.retry_budget_window) t (slot_of cfg) log refl o,
  )

  called-promised :
      (cfg : TargetConfig fl) (b : RetryBudget fl) (now : ℕ) (cs : List Call)
      → IsOf cfg b
      → b.w ≡ Window.new_window (pos_part cfg.retry_budget_window)
      → IsInOrder now cs
      → called (some b) cs
        ≡ some (record b { w = filled (pos_part cfg.retry_budget_window) (promised cfg cs) })
  unfolding called promised filled
  called-promised cfg b now [] e w o = ground arith
  called-promised cfg b now (requests t ∷ cs) e w o =
      rw (called-promised cfg b t cs e w o.1) (unfold request in refl)
  called-promised cfg b now (retries t ∷ cs) e w o =
      ap (λ x. (try_retry x t).0) (called-promised cfg b t cs e w o.1)
      ∙ ap (λ x. x.0)
          (try_retry-filled cfg b t (promised cfg cs) e (promised-IsOrdered cfg t cs o.1))

  -- Where the calls come in the order of time: a retry is granted exactly if the retries granted in
  -- the last ten slots are fewer than the configuration's minimum and ratio × the requests counted
  -- in them.
  pub try_retry-promised :
      (cfg : TargetConfig fl) (b : RetryBudget fl) (now : ℕ) (cs : List Call)
      → new_retry_budget cfg ≡ some b
      → IsInOrder now cs
      → (try_retry (called (some b) cs) now).1 ≡ unspent cfg now (promised cfg cs)
  try_retry-promised cfg b now cs e o =
      rw (called-promised cfg b now cs (new-IsOf cfg b e) (new-window cfg b e) o) (
        ap (λ x. x.1)
          (try_retry-filled cfg b now (promised cfg cs) (new-IsOf cfg b e)
            (promised-IsOrdered cfg now cs o)))
