-- ===== src/Resilient/Breaker/Cases.antt =====
-- libs/resilient-http-client/breaker.go: what one call of `allow` and of `record` does to the snapshot,
-- where no rival gets in between.
use golang_basics.Base.{ℕ, ◌+◌, ◌-◌, ◌≤◌, ◌≡◌, ◌≢◌, ◌⊎◌, true, false, some, arith}
use golang_basics.Base.Int.{pos, leb_ℤ}
use golang_basics.Base.Float.{Float64}
use golang_basics.Resilient.Breaker.{
  Breaker, BreakerState, Ticket, Outcome, closed, open_state, half_open, success, failure, ignored,
  fresh, u64, allow_pass, allow_try, no_rival, probe_try, record_closed, record_ticket,
}

module _ {fl : Float64} where
  -- How a request is admitted, where no rival gets in between.
  abbrev pub Admitted : BreakerState → Breaker fl → Breaker fl → Ticket → Type 0
  Admitted closed b b' t = (b'.cur ≡ b.cur) × (t ≡ record { gen = b.cur.gen; probe = false })
  Admitted open_state b b' t =
      (b'.cur ≡ record (fresh half_open (u64 (b.cur.gen + 1))) { probes = 1 })
      × (t ≡ record { gen = u64 (b.cur.gen + 1); probe = true })
  Admitted half_open b b' t =
      (leb_ℤ b.max_probes (pos b.cur.probes) ≡ false)
      × (b'.cur ≡ record b.cur { probes = b.cur.probes + 1 })
      × (t ≡ record { gen = b.cur.gen; probe = true })

  pub admit-cases :
      (st : BreakerState) (now : ℕ) (b b' : Breaker fl) (t : Ticket)
      → allow_pass st now b.cur b.version b ≡ some (b', (t, true))
      → Admitted st b b' t × (b'.max_probes ≡ b.max_probes)
  unfolding allow_try
  admit-cases closed now b b' t e = ground arith
  admit-cases open_state now b b' t e = ground arith
  admit-cases half_open now b b' t e = ground arith

  -- What a probe's result does to the snapshot.
  abbrev pub Probed : Outcome → ℕ → Breaker fl → Breaker fl → Type 0
  Probed ignored now b b' = b'.cur ≡ record b.cur { probes = b.cur.probes - 1 }
  Probed failure now b b' =
      b'.cur ≡ record (fresh open_state (u64 (b.cur.gen + 1))) { opened_at = now }
  Probed success now b b' =
      ((leb_ℤ b.max_probes (pos (b.cur.successes + 1)) ≡ true)
        × (b'.cur ≡ fresh closed (u64 (b.cur.gen + 1))))
      ⊎ ((leb_ℤ b.max_probes (pos (b.cur.successes + 1)) ≡ false)
          × (b'.cur ≡ record b.cur { successes = b.cur.successes + 1 }))

  pub probe-cases :
      (o : Outcome) (now : ℕ) (b b' : Breaker fl) (t : Ticket)
      → probe_try t o now b b ≡ some b'
      → (b'.max_probes ≡ b.max_probes)
        × (((b.cur.state ≡ half_open) × (b.cur.gen ≡ t.gen) × Probed o now b b')
            ⊎ (((b.cur.state ≢ half_open) ⊎ (b.cur.gen ≢ t.gen)) × (b'.cur ≡ b.cur)))
  unfolding probe_try
  probe-cases ignored now b b' t e = ground arith
  probe-cases failure now b b' t e = ground arith
  probe-cases success now b b' t e = ground arith

  pub closed-cases :
      (t : Ticket) (o : Outcome) (now : ℕ) (b : Breaker fl)
      → let b' = record_closed no_rival no_rival t o now b in
        (b'.max_probes ≡ b.max_probes)
        × ((b'.cur ≡ b.cur)
            ⊎ ((b.cur.state ≡ closed)
                × (b'.cur ≡ record (fresh open_state (u64 (b.cur.gen + 1))) { opened_at = now })))
  unfolding record_closed
  closed-cases t o now b = ground arith

  pub refuse-cases :
      (st : BreakerState) (now : ℕ) (b b' : Breaker fl) (t : Ticket)
      → allow_pass st now b.cur b.version b ≡ some (b', (t, false))
      → b' ≡ b
  unfolding allow_try
  refuse-cases closed now b b' t e = cc
  refuse-cases open_state now b b' t e = ground arith
  refuse-cases half_open now b b' t e = ground arith

  pub plain-cases :
      (o : Outcome) (now : ℕ) (b b' : Breaker fl) (t : Ticket)
      → t.probe ≡ false
      → record_ticket (some b) t o now ≡ some b'
      → (b'.max_probes ≡ b.max_probes)
        × ((b'.cur ≡ b.cur)
            ⊎ ((b.cur.state ≡ closed)
                × (b'.cur ≡ record (fresh open_state (u64 (b.cur.gen + 1))) { opened_at = now })))
  unfolding record_ticket
  plain-cases ignored now b b' t p e = ground arith
  plain-cases failure now b b' t p e = ground (arith, closed-cases t failure now b)
  plain-cases success now b b' t p e = ground (arith, closed-cases t success now b)

  gen-Admitted :
      (st : BreakerState) (b b' : Breaker fl) (t : Ticket)
      → Admitted st b b' t
      → b'.cur.gen ≤ b.cur.gen + 1
  gen-Admitted closed b b' t a = ground arith
  gen-Admitted open_state b b' t a = ground arith
  gen-Admitted half_open b b' t a = ground arith

  pub gen-allow :
      (now : ℕ) (b b' : Breaker fl) (t : Ticket)
      → allow_try now b b ≡ some (b', (t, true))
      → b'.cur.gen ≤ b.cur.gen + 1
  unfolding allow_try
  gen-allow now b b' t e = gen-Admitted b.cur.state b b' t (admit-cases b.cur.state now b b' t e).0
