-- ===== src/Resilient/Validate.antt =====
-- libs/resilient-http-client/validate.go: every problem of a configuration at once. A problem is a
-- constructor where the code formats a message.
pub mod Accepts
use golang_basics.Base.{
  ℕ, suc, Bool, true, false, ◌||◌, List, [], ◌∷◌, ◌++◌, map, String, str_eq, is_empty,
  if◌then◌else◌,
}
use golang_basics.Base.Int.{ℤ, pos, ltb_ℤ, leb_ℤ}
use golang_basics.Base.Float.{Float64}
use golang_basics.Resilient.Config.{TargetConfig, Config}

pub data TargetProblem : Type 0 where
  bad_timeouts bad_rate bad_max_concurrent : TargetProblem
  bad_failure_ratio bad_min_requests bad_breaker_times bad_half_open_probes : TargetProblem
  bad_max_attempts bad_retry_delays bad_budget_ratio bad_budget_values : TargetProblem

pub data Problem : Type 0 where
  bad_pool_sizes bad_transport_timeouts bad_max_redirects : Problem
  name_empty : ℕ → Problem
  declared_twice : String → Problem
  of_target : String → TargetProblem → Problem

-- `if test { bad(problem) }`
abbrev pub report : {A : Type 0} → Bool → A → List A
report true p = p ∷ []
report false p = []

abbrev pub is_neg : ℤ → Bool
is_neg z = ltb_ℤ z (pos 0)

abbrev pub is_seen : String → List String → Bool
is_seen name [] = false
is_seen name (n ∷ ns) = str_eq n name || is_seen name ns

-- The problem of a name, if there is one.
abbrev pub name_problems : ℕ → String → List String → List Problem
name_problems i name seen =
    if is_empty name then name_empty i ∷ [] else report (is_seen name seen) (declared_twice name)

module _ {fl : Float64} where
  unfoldable pub breaker_problems : TargetConfig fl → List TargetProblem
  breaker_problems t =
      if fl.lt t.breaker_failure_ratio (fl.of_int (pos 0))
        || fl.lt (fl.of_int (pos 1)) t.breaker_failure_ratio
      then bad_failure_ratio ∷ []
      else if fl.lt (fl.of_int (pos 0)) t.breaker_failure_ratio
      then (report (ltb_ℤ t.breaker_min_requests (pos 1)) bad_min_requests
          ++ (report (leb_ℤ t.breaker_window (pos 0) || leb_ℤ t.breaker_open_timeout (pos 0))
                bad_breaker_times
              ++ report (ltb_ℤ t.breaker_half_open_probes (pos 1)) bad_half_open_probes))
      else []

  unfoldable pub validate_target : TargetConfig fl → List TargetProblem
  unfolding breaker_problems
  validate_target t =
      report (is_neg t.timeout || is_neg t.max_concurrent_wait) bad_timeouts
      ++ (report (fl.lt t.rate_limit (fl.of_int (pos 0)) || is_neg t.rate_burst) bad_rate
          ++ (report (is_neg t.max_concurrent) bad_max_concurrent
              ++ (breaker_problems t
                  ++ (report (is_neg t.retry_max_attempts) bad_max_attempts
                      ++ (report
                            (is_neg t.retry_base_delay
                              || ltb_ℤ t.retry_max_delay t.retry_base_delay)
                            bad_retry_delays
                          ++ (report
                                (fl.lt t.retry_budget_ratio (fl.of_int (pos 0))
                                  || fl.lt (fl.of_int (pos 1)) t.retry_budget_ratio)
                                bad_budget_ratio
                              ++ report
                                  (is_neg t.retry_budget_min_retries
                                    || is_neg t.retry_budget_window)
                                  bad_budget_values))))))

  unfoldable pub validate_targets : ℕ → List String → List (TargetConfig fl) → List Problem
  validate_targets i seen [] = []
  validate_targets i seen (t ∷ ts) =
      name_problems i t.name seen
      ++ (map (of_target t.name) (validate_target t) ++ validate_targets (suc i) (t.name ∷ seen) ts)

  -- The problems; the code returns nil when there is none, and the joined problems otherwise.
  unfoldable pub validate : Config fl → List Problem
  validate c =
      report
        (is_neg c.max_idle_conns || is_neg c.max_idle_conns_per_host || is_neg c.max_conns_per_host)
        bad_pool_sizes
      ++ (report
            (is_neg c.idle_conn_timeout
              || is_neg c.response_header_timeout
              || is_neg c.http2_ping_interval
              || is_neg c.http2_ping_timeout)
            bad_transport_timeouts
          ++ (report (is_neg c.max_redirects) bad_max_redirects ++ validate_targets 0 [] c.targets))
