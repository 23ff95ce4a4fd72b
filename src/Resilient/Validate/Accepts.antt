-- ===== src/Resilient/Validate/Accepts.antt =====
-- libs/resilient-http-client/validate.go against what the comments on the fields of config.go ask.
use golang_basics.Base.{
  ℕ, suc, ◌≤◌, ◌<◌, ◌≡◌, ◌≢◌, refl, ◌↔◌, Bool, true, false, List, [], ◌∷◌, ◌++◌, map, String,
  eq_iff, All, arith,
}
use golang_basics.Base.Int.{ℤ, pos, pos_part, neg_part}
use golang_basics.Base.Float.{Float64}
use golang_basics.Resilient.Config.{TargetConfig, Config}
use golang_basics.Resilient.Validate.{
  report, name_problems, is_seen, breaker_problems, validate_target, validate_targets, validate,
}

-- 0 ≤ z
abbrev pub IsNonneg : ℤ → Type 0
IsNonneg z = neg_part z ≡ 0

-- 0 < z
abbrev pub IsPos : ℤ → Type 0
IsPos z = 0 < pos_part z

abbrev pub InUnit : (fl : Float64) → fl.F → Type 0
InUnit fl x = (fl.lt x (fl.of_int (pos 0)) ≡ false) × (fl.lt (fl.of_int (pos 1)) x ≡ false)

append-eq-nil : {A : Type 0} (xs ys : List A) → (xs ++ ys ≡ []) ↔ ((xs ≡ []) × (ys ≡ []))
append-eq-nil [] ys = ground arith
append-eq-nil (x ∷ xs) ys = ground arith

report-eq-nil : {A : Type 0} (b : Bool) (p : A) → (report b p ≡ []) ↔ (b ≡ false)
report-eq-nil true p = ground arith
report-eq-nil false p = ground arith

map-eq-nil : {A B : Type 0} (f : A → B) (xs : List A) → (map f xs ≡ []) ↔ (xs ≡ [])
map-eq-nil f [] = ground arith
map-eq-nil f (x ∷ xs) = ground arith

name_problems-eq-nil :
    (i : ℕ) (name : String) (seen : List String)
    → (name_problems i name seen ≡ []) ↔ ((name ≢ "") × (is_seen name seen ≡ false))
name_problems-eq-nil i name seen = ground (arith, eq_iff name "")

module _ {fl : Float64} where
  open fl use {of_int, lt}

  -- With a breaker its settings are positive.
  pub record BreakerValid (t : TargetConfig fl) : Type 0 where
    pub ratio : InUnit fl t.breaker_failure_ratio
    pub min_requests :
        lt (of_int (pos 0)) t.breaker_failure_ratio ≡ true → IsPos t.breaker_min_requests
    pub window : lt (of_int (pos 0)) t.breaker_failure_ratio ≡ true → IsPos t.breaker_window
    pub open_timeout :
        lt (of_int (pos 0)) t.breaker_failure_ratio ≡ true → IsPos t.breaker_open_timeout
    pub probes :
        lt (of_int (pos 0)) t.breaker_failure_ratio ≡ true → IsPos t.breaker_half_open_probes

  pub record TargetValid (t : TargetConfig fl) : Type 0 where
    pub timeouts : IsNonneg t.timeout × IsNonneg t.max_concurrent_wait
    pub rate : (lt t.rate_limit (of_int (pos 0)) ≡ false) × IsNonneg t.rate_burst
    pub max_concurrent : IsNonneg t.max_concurrent
    pub breaker : BreakerValid t
    pub max_attempts : IsNonneg t.retry_max_attempts
    pub base_delay : IsNonneg t.retry_base_delay
    pub max_delay : IsNonneg t.retry_max_delay
    pub delays : pos_part t.retry_base_delay ≤ pos_part t.retry_max_delay
    pub budget_ratio : InUnit fl t.retry_budget_ratio
    pub budget : IsNonneg t.retry_budget_min_retries × IsNonneg t.retry_budget_window

  breaker-valid : (t : TargetConfig fl) → breaker_problems t ≡ [] → BreakerValid t
  unfolding breaker_problems
  breaker-valid t h = ground arith

  valid-breaker : (t : TargetConfig fl) → BreakerValid t → breaker_problems t ≡ []
  unfolding breaker_problems
  valid-breaker t h = ground arith

  target-valid : (t : TargetConfig fl) → validate_target t ≡ [] → TargetValid t
  unfolding validate_target
  target-valid t h =
      let parts = simp (append-eq-nil, report-eq-nil) at h in
      ground (arith, breaker-valid t parts.1.1.1.0)

  valid-target : (t : TargetConfig fl) → TargetValid t → validate_target t ≡ []
  unfolding validate_target
  valid-target t v = ground (arith, valid-breaker t v.breaker)

  -- The names are there, and no two targets have the same.
  abbrev pub NamesOk : List (TargetConfig fl) → Type 0
  NamesOk [] = Unit {0}
  NamesOk (t ∷ ts) = (t.name ≢ "") × All (λ u. u.name ≢ t.name) ts × NamesOk ts

  pub record ConfigValid (c : Config fl) : Type 0 where
    pub pool_sizes :
        IsNonneg c.max_idle_conns
        × IsNonneg c.max_idle_conns_per_host
        × IsNonneg c.max_conns_per_host
    pub timeouts :
        IsNonneg c.idle_conn_timeout
        × IsNonneg c.response_header_timeout
        × IsNonneg c.http2_ping_interval
        × IsNonneg c.http2_ping_timeout
    pub redirects : IsNonneg c.max_redirects
    pub names : NamesOk c.targets
    pub each : All TargetValid c.targets

  abbrev Unseen : List String → List (TargetConfig fl) → Type 0
  Unseen seen ts = All (λ t. is_seen t.name seen ≡ false) ts

  Unseen-cons :
      (n : String) (seen : List String) (ts : List (TargetConfig fl))
      → Unseen (n ∷ seen) ts ↔ (All (λ u. u.name ≢ n) ts × Unseen seen ts)
  Unseen-cons n seen [] = ground arith
  Unseen-cons n seen (t ∷ ts) = ground (arith, eq_iff n t.name, Unseen-cons n seen ts)

  targets-valid :
      (i : ℕ) (seen : List String) (ts : List (TargetConfig fl))
      → validate_targets i seen ts ≡ []
      → Unseen seen ts × NamesOk ts × All TargetValid ts
  unfolding validate_targets
  targets-valid i seen [] h = (tt, tt, tt)
  targets-valid i seen (t ∷ ts) h =
      let (named, (own, rest)) = simp (append-eq-nil, map-eq-nil) at h in
      let (unseen, names, each) = targets-valid (suc i) (t.name ∷ seen) ts rest in
      let (others, unseen') = (Unseen-cons t.name seen ts).0 unseen in
      let (present, fresh) = (name_problems-eq-nil i t.name seen).0 named in
      ((fresh, unseen'), (present, others, names), (target-valid t own, each))

  valid-targets :
      (i : ℕ) (seen : List String) (ts : List (TargetConfig fl))
      → Unseen seen ts
      → NamesOk ts
      → All TargetValid ts
      → validate_targets i seen ts ≡ []
  unfolding validate_targets
  valid-targets i seen [] u n e = refl
  valid-targets i seen (t ∷ ts) u n e =
      simp (append-eq-nil, map-eq-nil)
        (
          (name_problems-eq-nil i t.name seen).1 (n.0, u.0),
          (
            valid-target t e.0,
            valid-targets (suc i) (t.name ∷ seen) ts ((Unseen-cons t.name seen ts).1 (n.1, u.1)) n.2
                e.1,
          ),
        )

  Unseen-nil : (ts : List (TargetConfig fl)) → Unseen [] ts
  Unseen-nil [] = tt
  Unseen-nil (t ∷ ts) = (refl, Unseen-nil ts)

  -- A configuration is accepted exactly if it keeps every bound that the comments on its fields
  -- state, each target too, and its targets have distinct names.
  pub validate_iff : (c : Config fl) → (validate c ≡ []) ↔ ConfigValid c
  unfolding validate
  validate_iff c = (
    λ h.
        let parts = simp (append-eq-nil, report-eq-nil) at h in
        let (_, names, each) = targets-valid 0 [] c.targets parts.1.1.1 in
        record {
          pool_sizes = ground arith;
          timeouts = ground arith;
          redirects = ground arith;
          names = names;
          each = each;
        },
    λ v.
        simp (append-eq-nil, report-eq-nil)
          (
            ground arith,
            (
              ground arith,
              (ground arith, valid-targets 0 [] c.targets (Unseen-nil c.targets) v.names v.each),
            ),
          ),
  )
