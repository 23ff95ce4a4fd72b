-- ===== src/Resilient/Config.antt =====
-- libs/resilient-http-client/config.go: the settings of a client and of one target, with their
-- defaults. An int or a time.Duration (nanoseconds) is a ℤ, a float64 is the parameter's.
use golang_basics.Base.{ℕ, ◌*◌, Bool, false, List, map, String}
use golang_basics.Base.Int.{ℤ, pos}
use golang_basics.Base.Float.{Float64}

pub record TargetConfig (fl : Float64) : Type 0 where
  pub name : String
  pub timeout : ℤ
  pub rate_limit : fl.F
  pub rate_burst : ℤ
  pub max_concurrent : ℤ
  pub max_concurrent_wait : ℤ
  pub breaker_failure_ratio : fl.F
  pub breaker_min_requests : ℤ
  pub breaker_window : ℤ
  pub breaker_open_timeout : ℤ
  pub breaker_half_open_probes : ℤ
  pub retry_max_attempts : ℤ
  pub retry_base_delay : ℤ
  pub retry_max_delay : ℤ
  pub retry_budget_ratio : fl.F
  pub retry_budget_min_retries : ℤ
  pub retry_budget_window : ℤ

pub record Config (fl : Float64) : Type 0 where
  pub max_idle_conns : ℤ
  pub max_idle_conns_per_host : ℤ
  pub max_conns_per_host : ℤ
  pub idle_conn_timeout : ℤ
  pub response_header_timeout : ℤ
  pub http2_ping_interval : ℤ
  pub http2_ping_timeout : ℤ
  pub max_redirects : ℤ
  pub allow_cross_host_redirects : Bool
  pub user_agent : String
  pub targets : List (TargetConfig fl)

-- time.Second and time.Millisecond
abbrev pub second : ℕ
second = 1000000000

abbrev pub millisecond : ℕ
millisecond = 1000000

module _ (fl : Float64) where
  unfoldable pub default_target : String → TargetConfig fl
  default_target name = record {
    name = name;
    timeout = pos (5 * second);
    rate_limit = fl.of_int (pos 0);
    rate_burst = pos 0;
    max_concurrent = pos 0;
    max_concurrent_wait = pos 0;
    breaker_failure_ratio = fl.quot 1 2;
    breaker_min_requests = pos 20;
    breaker_window = pos (10 * second);
    breaker_open_timeout = pos (30 * second);
    breaker_half_open_probes = pos 1;
    retry_max_attempts = pos 3;
    retry_base_delay = pos (100 * millisecond);
    retry_max_delay = pos (5 * second);
    retry_budget_ratio = fl.quot 1 5;
    retry_budget_min_retries = pos 10;
    retry_budget_window = pos (10 * second);
  }

  unfoldable pub default_config : List String → Config fl
  unfolding default_target
  default_config targets = record {
    max_idle_conns = pos 100;
    max_idle_conns_per_host = pos 32;
    max_conns_per_host = pos 0;
    idle_conn_timeout = pos (90 * second);
    response_header_timeout = pos 0;
    http2_ping_interval = pos (30 * second);
    http2_ping_timeout = pos (15 * second);
    max_redirects = pos 10;
    allow_cross_host_redirects = false;
    user_agent = "";
    targets = map default_target targets;
  }
