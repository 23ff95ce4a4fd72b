-- ===== src/Resilient/Budget.antt =====
-- libs/resilient-http-client/budget.go: retries bounded by a share of the requests. The mutex makes
-- each call one step.
pub mod Granted
use golang_basics.Base.{ℕ, Bool, true, false, Option, none, some, if◌then◌else◌}
use golang_basics.Base.Int.{ℤ, pos, pos_part, leb_ℤ}
use golang_basics.Base.Float.{Float64}
use golang_basics.Resilient.Config.{TargetConfig}
use golang_basics.Resilient.Window.{Window}
use golang_basics.Resilient.Window

-- In the window `a` counts requests and `b` retries.
pub record RetryBudget (fl : Float64) : Type 0 where
  pub w : Window
  pub ratio : fl.F
  pub min_retries : ℤ

module _ {fl : Float64} where
  unfoldable pub new_retry_budget : TargetConfig fl → Option (RetryBudget fl)
  new_retry_budget cfg =
      if leb_ℤ cfg.retry_budget_window (pos 0)
      then none
      else some (record {
        w = Window.new_window (pos_part cfg.retry_budget_window);
        ratio = cfg.retry_budget_ratio;
        min_retries = cfg.retry_budget_min_retries;
      })

  unfoldable pub request : Option (RetryBudget fl) → ℕ → Option (RetryBudget fl)
  request none now = none
  request (some b) now = some (record b { w = Window.add b.w now 1 0 })

  -- The budget is spent: retries ≥ min + ratio × requests.
  abbrev pub is_spent : RetryBudget fl → ℕ → ℕ → Bool
  is_spent b requests retries =
      fl.le (fl.add (fl.of_int b.min_retries) (fl.mul b.ratio (fl.of_int (pos requests))))
        (fl.of_int (pos retries))

  abbrev try_retry_some : RetryBudget fl → ℕ → RetryBudget fl × Bool
  try_retry_some b now =
      let (requests, retries) = Window.sum b.w now in
      if is_spent b requests retries
      then (b, false)
      else (record b { w = Window.add b.w now 0 1 }, true)

  unfoldable pub try_retry : Option (RetryBudget fl) → ℕ → Option (RetryBudget fl) × Bool
  try_retry none now = (none, true)
  try_retry (some b) now = let (b', granted) = try_retry_some b now in (some b', granted)
