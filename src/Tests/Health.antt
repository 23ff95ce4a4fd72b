-- ===== src/Tests/Health.antt =====
-- libs/httpx/health.go: a registry with a database, a cache and a check that hangs.
use golang_basics.Base.{
  ℕ, ◌≤◌, ◌+◌, ◌*◌, inl, inr, Bool-cases, ◌≡◌, ◌↔◌, ◌⊎◌, refl, true, false, none, some, [], ◌∷◌,
  String, str_eq, IsIn, All, if◌then◌else◌, arith,
}
use golang_basics.Httpx.Health as Health
use golang_basics.Httpx.Health.{
  Result, Check, Run, finished, hung, run_check, stale_limit, is_old, find_result, snapshot,
  ready_handler, degraded, ready_status, not_ready,
}
use golang_basics.Httpx.Health.Ready.{IsCriticalFailure, ready_handler-not_ready, snapshot-fresh}

abbrev database : Check
database = record { name = "postgres"; optional = false; running = false }

abbrev events : Check
events = record { name = "kafka"; optional = true; running = false }

abbrev health : Health.Health ℕ
health = record {
  checks = database ∷ events ∷ [];
  results = [];
  ready = true;
  interval = 10;
  timeout = 3;
}

abbrev run : String → Run ℕ
run name = if str_eq name "kafka" then hung 53 else finished none 50

ready_handler_test : (ready_handler 50 run health).0 ≡ (200, degraded)
unfolding ready_handler find_result Health.find_check
ready_handler_test = refl

-- A first evaluation that still runs leaves no result, and the check passes.
unchecked_test :
    (ready_handler 50 run (record health { checks = record database { running = true } ∷ [] })).0
    ≡ (200, ready_status)
unfolding ready_handler find_result Health.find_check
unchecked_test = refl

ready_handler-not_ready_example : ((ready_handler 50 run health).0.0 ≡ 503) ↔ (
    (health.ready ≡ false)
    ⊎ ((c : Check) × IsIn c (snapshot 50 run health).checks
        × IsCriticalFailure (snapshot 50 run health).results c))
ready_handler-not_ready_example = ready_handler-not_ready 50 run health

later : (n : String) → 50 ≤ (run_check (run n)).checked_at
unfolding run_check
later n = elim (Bool-cases (str_eq n "kafka")) [
  | inl b ↦ simp b (omega arith)
  | inr b ↦ simp b (omega arith)
]

snapshot-fresh_example :
    All
      (λ c.
        c.running ≡ false
        → (r : Result ℕ) × (find_result c.name (snapshot 50 run health).results ≡ some r)
          × (50 ≤ r.checked_at + (2 * health.interval + health.timeout)))
      health.checks
snapshot-fresh_example = snapshot-fresh 50 run health later
