-- ===== src/Resilient/Breaker/Races.antt =====
-- libs/resilient-http-client/breaker.go: the compare-and-swap loops against rivals.
use golang_basics.Base.{ℕ, ◌≡◌, ◌≢◌, refl, ◌⊎◌, Bool, none, some, List, [], ◌∷◌, arith}
use golang_basics.Base.Float.{Float64}
use golang_basics.Resilient.Breaker.{
  Breaker, BreakerState, Ticket, Outcome, Rival, closed, open_state, half_open, allow_pass,
  allow_try, allow_loop, probe_try, record_probe,
}

module _ {fl : Float64} where
  -- A rival replaces the snapshot together with its pointer, and never the settings.
  pub record IsRival (r : Rival fl) : Type 0 where
    pub same : (b : Breaker fl) → (r b).version ≡ b.version → (r b).cur ≡ b.cur
    pub probes : (b : Breaker fl) → (r b).max_probes ≡ b.max_probes
    pub timeout : (b : Breaker fl) → (r b).open_timeout ≡ b.open_timeout

  allow_pass_alone :
      (st : BreakerState) (now : ℕ) (b : Breaker fl) → allow_pass st now b.cur b.version b ≢ none
  unfolding allow_try
  allow_pass_alone closed now b h = ground arith
  allow_pass_alone open_state now b h = ground arith
  allow_pass_alone half_open now b h = ground arith

  pub allow_try_alone : (now : ℕ) (b : Breaker fl) → allow_try now b b ≢ none
  unfolding allow_try
  allow_try_alone now b h = allow_pass_alone b.cur.state now b h

  -- `allow` returns, however many races it loses first.
  allow_loop-ne-none :
      (rivals : List (Rival fl)) (now : ℕ) (b : Breaker fl) → allow_loop rivals now b ≢ none
  unfolding allow_loop
  allow_loop-ne-none [] now b h = allow_try_alone now b h
  allow_loop-ne-none (r ∷ rivals) now b h = ground (arith, allow_loop-ne-none rivals now (r b))

  -- `recordProbe` returns, however many races it loses first.
  pub record_probe-ne-none :
      (rivals : List (Rival fl)) (t : Ticket) (o : Outcome) (now : ℕ) (b : Breaker fl)
      → record_probe rivals t o now b ≢ none
  unfolding record_probe probe_try
  record_probe-ne-none [] t o now b h = ground arith
  record_probe-ne-none (r ∷ rivals) t o now b h =
      ground (arith, record_probe-ne-none rivals t o now (r b))

  allow_pass-alone :
      (st : BreakerState) (now : ℕ) (b b' c : Breaker fl) (t : Ticket) (ok : Bool)
      → b.cur.state ≡ st
      → (c.version ≡ b.version → c.cur ≡ b.cur)
      → c.max_probes ≡ b.max_probes
      → c.open_timeout ≡ b.open_timeout
      → allow_pass st now b.cur b.version c ≡ some (b', (t, ok))
      → ((b' ≡ c) × (allow_pass st now b.cur b.version b ≡ some (b, (t, ok))))
        ⊎ (allow_pass c.cur.state now c.cur c.version c ≡ some (b', (t, ok)))
  unfolding allow_try
  allow_pass-alone closed now b b' c t ok h same p o e = ground arith
  allow_pass-alone open_state now b b' c t ok h same p o e = ground arith
  allow_pass-alone half_open now b b' c t ok h same p o e = ground arith

  -- A rival replaces the snapshot with its version and leaves the settings alone: a pass against it either takes a decision that changes nothing, on what it loaded, or does
  -- to what the rival left just what it does alone.
  allow_try-alone :
      (now : ℕ) (b b' : Breaker fl) (r : Rival fl) (t : Ticket) (ok : Bool)
      → IsRival r
      → allow_try now b (r b) ≡ some (b', (t, ok))
      → ((b' ≡ r b) × (allow_try now b b ≡ some (b, (t, ok))))
        ⊎ (allow_try now (r b) (r b) ≡ some (b', (t, ok)))
  unfolding allow_try
  allow_try-alone now b b' r t ok h e =
      allow_pass-alone b.cur.state now b b' (r b) t ok refl (h.same b) (h.probes b) (h.timeout b) e
