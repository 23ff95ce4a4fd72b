-- ===== src/Httpx/Health.antt =====
-- libs/httpx/health.go: the registry of checks, a refresh, and the answers of /readyz.
pub mod Ready
use golang_basics.Base.{
  ℕ, ◌+◌, ◌*◌, Bool, true, false, not, ◌&&◌, ◌||◌, Option, none, some, List, [], ◌∷◌, ◌++◌, String,
  str_eq, ltb, if◌then◌else◌, map,
}
use golang_basics.Base.Int.{ℤ, pos, pos_part, leb_ℤ}
use golang_basics.Resilient.Config.{second}

pub record Check : Type 0 where
  pub name : String
  pub optional : Bool
  pub running : Bool

-- What a check returns, or that it did not within the timeout.
pub data CheckError (E : Type 0) : Type 0 where
  returned : E → CheckError E
  not_in_time : CheckError E

pub record Result (E : Type 0) : Type 0 where
  pub err : Option (CheckError E)
  pub checked_at : ℕ

-- The maps are lists in the order of registration; `results` has an entry per checked name.
pub record Health (E : Type 0) : Type 0 where
  pub checks : List Check
  pub results : List (String × Result E)
  pub ready : Bool
  pub interval : ℕ
  pub timeout : ℕ

abbrev pub default_health_interval : ℕ
default_health_interval = 10 * second

abbrev pub default_health_timeout : ℕ
default_health_timeout = 3 * second

abbrev or_default : ℤ → ℕ → ℕ
or_default z n = if leb_ℤ z (pos 0) then n else pos_part z

unfoldable pub new_health : {E : Type 0} → ℤ → ℤ → Health E
new_health interval timeout = record {
  checks = [];
  results = [];
  ready = false;
  interval = or_default interval default_health_interval;
  timeout = or_default timeout default_health_timeout;
}

-- How the evaluation of a check ends: in time with what it returns, or not; and when.
pub data Run (E : Type 0) : Type 0 where
  finished : Option E → ℕ → Run E
  hung : ℕ → Run E

unfoldable pub find_check : String → List Check → Option Check
find_check name [] = none
find_check name (c ∷ cs) =
    let rest = find_check name cs in if str_eq c.name name then some c else rest

unfoldable pub put_check : Check → List Check → List Check
put_check new [] = new ∷ []
put_check new (c ∷ cs) =
    let rest = put_check new cs in if str_eq c.name new.name then new ∷ cs else c ∷ rest

pub data Status : Type 0 where
  ready_status degraded not_ready : Status

abbrev pub status_of : Bool × Bool → ℕ × Status
status_of (true, optional) = (503, not_ready)
status_of (false, true) = (200, degraded)
status_of (false, false) = (200, ready_status)

module _ {E : Type 0} where
  unfoldable pub find_result : String → List (String × Result E) → Option (Result E)
  find_result name [] = none
  find_result name ((n, r) ∷ rs) =
      let rest = find_result name rs in if str_eq n name then some r else rest

  unfoldable pub delete_result : String → List (String × Result E) → List (String × Result E)
  delete_result name [] = []
  delete_result name ((n, r) ∷ rs) =
      let rest = delete_result name rs in if str_eq n name then rest else (n, r) ∷ rest

  unfoldable pub register : String → Bool → Health E → Health E
  register name optional h = record h {
    checks = put_check (record { name = name; optional = optional; running = false }) h.checks;
    results = delete_result name h.results;
  }

  unfoldable pub set_ready : Bool → Health E → Health E
  set_ready ready h = record h { ready = ready }

  abbrev to_error : Option E → Option (CheckError E)
  to_error none = none
  to_error (some e) = some (returned e)

  -- `runCheck`
  unfoldable pub run_check : Run E → Result E
  run_check (finished e at) = record { err = to_error e; checked_at = at }
  run_check (hung at) = record { err = some not_in_time; checked_at = at }

  -- A check that hangs keeps the flag until it returns.
  abbrev is_hung : Run E → Bool
  is_hung (finished e at) = false
  is_hung (hung at) = true

  unfoldable pub start_check : (String → Run E) → Check → Check
  start_check run c = if c.running then c else record c { running = is_hung (run c.name) }

  abbrev pub store_one :
      (String → Run E)
      → Check
      → Bool
      → Option Check
      → List (String × Result E)
      → List (String × Result E)
  store_one run c true o results = results
  store_one run c false none results = results
  store_one run c false (some still) results =
      (c.name, run_check (run c.name)) ∷ delete_result c.name results

  -- The second pass of a refresh, over the names and checks of the first: a check that was running
  -- is skipped, one that is no longer registered too.
  unfoldable pub store_results :
      (String → Run E)
      → List Check
      → List Check
      → List (String × Result E)
      → List (String × Result E)
  unfolding run_check delete_result
  store_results run registered [] results = results
  store_results run registered (c ∷ cs) results =
      store_results run registered cs
        (store_one run c c.running (find_check c.name registered) results)

  -- A refresh without a registration meanwhile.
  unfoldable pub refresh : (String → Run E) → Health E → Health E
  unfolding start_check store_results
  refresh run h = record h {
    checks = map (start_check run) h.checks;
    results = store_results run h.checks h.checks h.results;
  }

  abbrev pub stale_limit : Health E → ℕ
  stale_limit h = 2 * h.interval + h.timeout

  abbrev pub is_old : ℕ → ℕ → Option (Result E) → Bool
  is_old limit now none = true
  is_old limit now (some r) = ltb (r.checked_at + limit) now

  unfoldable pub any_old : ℕ → ℕ → List (String × Result E) → List Check → Bool
  any_old limit now results [] = false
  any_old limit now results (c ∷ cs) =
      is_old limit now (find_result c.name results) || any_old limit now results cs

  unfoldable pub stale : ℕ → Health E → Bool
  unfolding any_old
  stale now h = any_old (stale_limit h) now h.results h.checks

  -- A probe that finds a stale result refreshes first.
  unfoldable pub snapshot : ℕ → (String → Run E) → Health E → Health E
  unfolding stale refresh
  snapshot now run h = if stale now h then refresh run h else h

  abbrev is_error : Option (CheckError E) → Bool
  is_error none = false
  is_error (some e) = true

  -- `err == nil`, also of the zero result that a name without one reads as.
  abbrev pub is_failing : Option (Result E) → Bool
  is_failing none = false
  is_failing (some r) = is_error r.err

  -- The loop's two flags: a critical check failing, an optional one failing.
  unfoldable pub failing : List (String × Result E) → List Check → Bool × Bool
  failing results [] = (false, false)
  failing results (c ∷ cs) =
      let (critical, optional) = failing results cs in
      if is_failing (find_result c.name results)
      then (if c.optional then (critical, true) else (true, optional))
      else (critical, optional)

  abbrev answer : Health E → ℕ × Status
  unfolding failing
  answer h = status_of (failing h.results h.checks)

  unfoldable pub ready_handler : ℕ → (String → Run E) → Health E → (ℕ × Status) × Health E
  unfolding snapshot failing
  ready_handler now run h =
      let h' = snapshot now run h in if not h.ready then ((503, not_ready), h) else (answer h', h')
