-- ===== src/Resilient/Breaker/Trip.antt =====
-- libs/resilient-http-client/breaker.go: when a closed breaker opens.
use golang_basics.Base.{
  ℕ, ◌/◌, max, ◌≡◌, refl, Bool, true, false, ◌&&◌, some, List, [], ◌∷◌, map, if◌then◌else◌, arith,
}
use golang_basics.Base.Int.{pos, pos_part, leb_ℤ}
use golang_basics.Base.Float.{Float64}
use golang_basics.Resilient.Config.{TargetConfig}
use golang_basics.Resilient.Window.Sliding.{Added, IsOrdered, filled, recent, sum-filled}
use golang_basics.Resilient.Breaker.{
  Breaker, Outcome, closed, open_state, success, failure, fresh, new_breaker, no_rival,
  record_closed,
}

-- How a request ended: at a time, with a failure or not.
pub record Ended : Type 0 where
  pub at : ℕ
  pub has_failed : Bool

abbrev pub outcome : Bool → Outcome
outcome true = failure
outcome false = success

abbrev pub added : List Ended → List Added
added = map λ r. record { at = r.at; a = 1; b = if r.has_failed then 1 else 0 }

-- The length of a slot of the breaker's window.
abbrev pub slot_of : {fl : Float64} → TargetConfig fl → ℕ
slot_of cfg = max (pos_part cfg.breaker_window / 10) 1

module _ {fl : Float64} where
  -- The results of the first generation, the latest first.
  pub reported : Breaker fl → List Ended → Breaker fl
  reported b [] = b
  reported b (r ∷ rs) =
      record_closed no_rival no_rival (record { gen = 0; probe = false }) (outcome r.has_failed)
        r.at (reported b rs)

  -- The latest result is a failure, and with it the requests of the window reach the ratio.
  abbrev pub trips : TargetConfig fl → ℕ → List Ended → Bool
  trips cfg slot [] = false
  trips cfg slot (r ∷ rs) =
      let requests = recent (λ e. e.a) slot r.at (added (r ∷ rs)) in
      let failures = recent (λ e. e.b) slot r.at (added (r ∷ rs)) in
      r.has_failed
      && (leb_ℤ cfg.breaker_min_requests (pos requests)
          && fl.le (fl.mul cfg.breaker_failure_ratio (fl.of_int (pos requests)))
              (fl.of_int (pos failures)))

  abbrev pub IsQuiet : TargetConfig fl → ℕ → List Ended → Type 0
  IsQuiet cfg slot [] = Unit {0}
  IsQuiet cfg slot (r ∷ rs) = (trips cfg slot (r ∷ rs) ≡ false) × IsQuiet cfg slot rs

  record Follows (cfg : TargetConfig fl) (len : ℕ) (rs : List Ended) (c : Breaker fl) : Type 0 where
    ratio : c.ratio ≡ cfg.breaker_failure_ratio
    min_requests : c.min_requests ≡ cfg.breaker_min_requests
    win : c.win ≡ filled len (added rs)
    win_gen : c.win_gen ≡ 0

  step-Follows :
      (cfg : TargetConfig fl) (len slot : ℕ) (rs : List Ended) (r : Ended) (c : Breaker fl)
      → slot ≡ max (len / 10) 1
      → IsOrdered r.at (added (r ∷ rs))
      → Follows cfg len rs c
      → c.cur ≡ fresh closed 0
      → let c' =
          record_closed no_rival no_rival
            (record { gen = 0; probe = false })
            (outcome r.has_failed)
            r.at
            c in
        Follows cfg len (r ∷ rs) c'
        × (c'.cur ≡ (
            if trips cfg slot (r ∷ rs)
            then record (fresh open_state 1) { opened_at = r.at }
            else fresh closed 0))
  unfolding record_closed filled
  step-Follows cfg len slot rs r c e o f h =
      ground (arith, sum-filled len r.at slot (added (r ∷ rs)) e o)

  quiet-Follows :
      (cfg : TargetConfig fl) (b : Breaker fl) (len slot now : ℕ) (rs : List Ended)
      → slot ≡ max (len / 10) 1
      → IsOrdered now (added rs)
      → IsQuiet cfg slot rs
      → Follows cfg len [] b
      → b.cur ≡ fresh closed 0
      → Follows cfg len rs (reported b rs) × ((reported b rs).cur ≡ fresh closed 0)
  unfolding reported
  quiet-Follows cfg b len slot now [] e o q f h = (f, h)
  quiet-Follows cfg b len slot now (r ∷ rs) e o q f h =
      let (g, c) = quiet-Follows cfg b len slot r.at rs e o.1 q.1 f h in
      let (g', opens) = step-Follows cfg len slot rs r (reported b rs) e (omega arith, o.1) g c in
      (g', ground (arith, opens))

  -- Where results are reported in the order of time and none has tripped yet: a new breaker stays
  -- closed until the first failure with which the requests of the last ten slots are enough and the
  -- failures among them reach the ratio, and opens with that one.
  pub reported-opens :
      (cfg : TargetConfig fl) (b : Breaker fl) (r : Ended) (rs : List Ended)
      → new_breaker cfg ≡ some b
      → IsOrdered r.at (added (r ∷ rs))
      → IsQuiet cfg (slot_of cfg) rs
      → (reported b (r ∷ rs)).cur ≡ (
          if trips cfg (slot_of cfg) (r ∷ rs)
          then record (fresh open_state 1) { opened_at = r.at }
          else fresh closed 0)
  unfolding new_breaker reported filled
  reported-opens cfg b r rs e o q =
      let len = pos_part cfg.breaker_window in
      let (f, c) =
        quiet-Follows cfg b len (slot_of cfg) r.at rs refl o.1 q (ground arith) (ground arith) in
      (step-Follows cfg len (slot_of cfg) rs r (reported b rs) refl o f c).1
