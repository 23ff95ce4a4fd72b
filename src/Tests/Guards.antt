-- ===== src/Tests/Guards.antt =====
-- libs/resilient-http-client: the window, the delays, the budget and the circuit breaker.
use golang_basics.Base.{
  ℕ, ◌+◌, ◌*◌, ◌/◌, ◌≤◌, max, ◌≡◌, ◌↔◌, refl, true, false, Option, none, some, List, [], ◌∷◌, runes,
  trim_space, trim_left, is_space, if◌then◌else◌, arith,
}
use golang_basics.Base.Int.{pos}
use golang_basics.Base.Float.{micro}
use golang_basics.Resilient.Config.{TargetConfig, Config, second, default_target, default_config}
use golang_basics.Resilient.Validate.{validate}
use golang_basics.Resilient.Validate.Accepts.{ConfigValid, validate_iff}
use golang_basics.Resilient.Window.{sum, add, new_window}
use golang_basics.Resilient.Window.Sliding.{Added, filled, recent, sum-filled}
use golang_basics.Resilient.Budget.{RetryBudget, new_retry_budget, try_retry}
use golang_basics.Resilient.Budget.Granted.{
  Call, requests, retries, called, unspent, promised, try_retry-promised,
}
use golang_basics.Resilient.Breaker.{
  closed, open_state, half_open, failure, Ticket, Breaker, fresh, Rival, new_breaker, allow_try,
  record_closed, allow, record_ticket,
}
use golang_basics.Resilient.Breaker.Probes.{
  Reach, here, next, admits, ends, held, half_open-bounded,
}
use golang_basics.Resilient.Breaker.Trip.{Ended, slot_of, reported, trips, IsQuiet, reported-opens}

abbrev calls : List Added
calls = record { at = 2500; a = 1; b = 1 } ∷ record { at = 100; a = 1; b = 0 } ∷ []

sum-filled_example :
    sum (filled 1000 calls) 2600
    ≡ (recent (λ e. e.a) 100 2600 calls, recent (λ e. e.b) 100 2600 calls)
sum-filled_example = sum-filled 1000 2600 100 calls refl (omega arith, (omega arith, tt))

abbrev no_date : List ℕ → Option ℕ
no_date v = none

trimmed : trim_space (runes " 120") ≡ b'1' ∷ b'2' ∷ b'0' ∷ []
unfolding trim_space trim_left is_space
trimmed = refl

abbrev one_target : Config micro
one_target = default_config micro ("users" ∷ [])

validate_iff_example : (validate one_target ≡ []) ↔ ConfigValid one_target
validate_iff_example = validate_iff one_target

abbrev target : TargetConfig micro
target = default_target micro "users"

abbrev budget : RetryBudget micro
budget = elim (new_retry_budget target) [
  | none ↦ record { w = record { slot = 1; slots = [] }; ratio = 0; min_retries = pos 0 }
  | some b ↦ b
]

budget-new : new_retry_budget target ≡ some budget
unfolding new_retry_budget default_target
budget-new = refl

abbrev asked : List Call
asked = retries 9 ∷ requests 7 ∷ requests 5 ∷ []

try_retry-promised_example :
    (try_retry (called (some budget) asked) 10).1 ≡ unspent target 10 (promised target asked)
try_retry-promised_example =
    try_retry-promised target budget 10 asked budget-new
      (omega arith, (omega arith, (omega arith, tt)))

-- A breaker that opens at the second failure of two requests, for a second, and probes once.
abbrev breaker_target : TargetConfig micro
breaker_target = record target {
  breaker_failure_ratio = 500000;
  breaker_min_requests = pos 2;
  breaker_window = pos (10 * second);
  breaker_open_timeout = pos second;
  breaker_half_open_probes = pos 1;
}

abbrev or_empty : Option (Breaker micro) → Breaker micro
or_empty (some b) = b
or_empty none = record {
  cur = fresh closed 0;
  version = 0;
  win = record { slot = 1; slots = [] };
  win_gen = 0;
  ratio = 0;
  min_requests = pos 0;
  open_timeout = pos 0;
  max_probes = pos 0;
  changes = [];
}

abbrev breaker : Breaker micro
breaker = or_empty (new_breaker breaker_target)

breaker-new : new_breaker breaker_target ≡ some breaker
unfolding new_breaker default_target
breaker-new = refl

abbrev failed_at : ℕ → Ended
failed_at t = record { at = t; has_failed = true }

first-IsQuiet : IsQuiet breaker_target (max (10 * second / 10) 1) (failed_at 5 ∷ [])
unfolding new_breaker default_target
first-IsQuiet = (refl, tt)

reported-opens_example : (reported breaker (failed_at 9 ∷ failed_at 5 ∷ [])).cur ≡ (
    if trips breaker_target (slot_of breaker_target) (failed_at 9 ∷ failed_at 5 ∷ [])
    then record (fresh open_state 1) { opened_at = 9 }
    else fresh closed 0)
reported-opens_example =
    reported-opens breaker_target breaker (failed_at 9) (failed_at 5 ∷ []) breaker-new
      (omega arith, (omega arith, tt)) first-IsQuiet

abbrev half : Breaker micro
half = record breaker { cur = record (fresh half_open 2) { probes = 0 } }

abbrev rival : Rival micro
rival b = b

abbrev probing : Breaker micro
probing = record half { cur = record half.cur { probes = 1 }; version = 1 }

half-admits :
    allow_try 50 half (rival half) ≡ some (probing, (record { gen = 2; probe = true }, true))
unfolding allow_try new_breaker default_target
half-admits = refl

-- Two failures open the breaker, and a second later a probe is let through.
abbrev plain : Ticket
plain = record { gen = 0; probe = false }

abbrev failing : Breaker micro
failing = or_empty (record_ticket (some breaker) plain failure 5)

abbrev opened : Breaker micro
opened = or_empty (record_ticket (some failing) plain failure 9)

abbrev probed : Breaker micro
probed = or_empty (allow (some opened) (2 * second)).0

breaker-probes : breaker.max_probes ≡ pos 1
unfolding new_breaker
breaker-probes = refl

opened-Reach :
    Reach
      (record { b = breaker; out = [] })
      (record { b = probed; out = record { gen = 2; probe = true } ∷ [] })
unfolding new_breaker default_target allow_try allow record_ticket record_closed sum add new_window
opened-Reach =
    next
      (next
        (next
          (next (next here (admits 1 plain refl (omega arith))) (admits 2 plain refl (omega arith)))
          (ends plain failure 5 [] (plain ∷ []) refl refl (omega arith)))
        (ends plain failure 9 [] [] refl refl (omega arith)))
      (admits (2 * second) (record { gen = 2; probe = true }) refl (omega arith))

probed-half_open : probed.cur.state ≡ half_open
unfolding new_breaker default_target allow_try allow record_ticket record_closed sum add new_window
probed-half_open = refl

half_open-bounded_example :
    (probed.cur.probes ≤ 1)
    × (probed.cur.successes ≤ 0)
    × (probed.cur.probes
        ≡ held probed.cur.gen (record { gen = 2; probe = true } ∷ []) + probed.cur.successes)
half_open-bounded_example =
    half_open-bounded 0 breaker_target breaker
      (record { b = probed; out = record { gen = 2; probe = true } ∷ [] }) breaker-new
      breaker-probes opened-Reach probed-half_open
