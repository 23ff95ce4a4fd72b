-- ===== src/Resilient/Client/Retries.antt =====
-- libs/resilient-http-client/client.go: how many retries one send makes.
use golang_basics.Base.{
  ℕ, zero, suc, ◌+◌, ◌-◌, ◌≤◌, ◌<◌, ◌≡◌, refl, Bool, Option, some, List, ◌&&◌, ◌||◌, Bool-cases,
  arith, if◌then◌else◌, inl, inr,
}
use golang_basics.Base.Int.{pos_part}
use golang_basics.Base.Float.{Float64}
use golang_basics.Resilient.Errors.{Request, idempotent}
use golang_basics.Resilient.Breaker.{Ticket, allow}
use golang_basics.Resilient.Bulkhead.{acquire}
use golang_basics.Resilient.Policy.{
  Policy, Try, Sent, Reply, broken, answer, ok, err, settle, transmit, take_slot, pass_limiter,
  attempt,
}
use golang_basics.Resilient.Client.{
  Passed, done, more, attempts_of, after_failure, weigh, pass, send_loop,
}
use golang_basics.Resilient.Client.Sending.{Passed-cases}

module _ {fl : Float64} (parse_time : List ℕ → Option ℕ) where
  settle-retries :
      (r : Reply) (at : ℕ) (tk : Ticket) (p : Policy fl)
      → (settle parse_time r at tk p).0.retries ≡ p.retries
  unfolding settle
  settle-retries (broken e) at tk p = refl
  settle-retries (answer code header) at tk p = ground arith

  attempt-retries :
      (p : Policy fl) (req : Request) (n : ℕ) (e : Try fl)
      → ((q : Policy fl) → (e.others q).retries ≡ q.retries)
      → (attempt parse_time p req n e).0.retries ≡ p.retries
  unfolding attempt pass_limiter take_slot transmit
  attempt-retries p req n e h =
      let a = allow p.breaker e.allow_at in
      let s = acquire p.bulkhead e.actx_done e.waited in
      let p' = record p { breaker = a.0; bulkhead = s.0 } in
      ground (arith, settle-retries e.reply e.reply_at a.1.0 (e.others p'), h p')

  -- A pass that ends adds no retry, and one that goes on adds one, before the last attempt.
  abbrev Adds : ℕ → ℕ → ℕ → Passed fl → Type 0
  Adds attempts n r (done q s) = q.retries ≡ r
  Adds attempts n r (more q) = (q.retries ≡ r + 1) × (n < attempts)

  weigh-Adds :
      (req : Request) (attempts n : ℕ) (e : Try fl) (p : Policy fl) (s : Sent)
      → Adds attempts n p.retries (weigh req attempts n e p s)
  unfolding after_failure
  weigh-Adds req attempts n e p (ok code) = refl
  weigh-Adds req attempts n e p (err oe) = ground arith

  pass-Adds :
      (req : Request) (attempts n : ℕ) (e : Try fl) (p : Policy fl)
      → ((q : Policy fl) → (e.others q).retries ≡ q.retries)
      → Adds attempts n p.retries (pass parse_time req attempts n e p)
  unfolding pass
  pass-Adds req attempts n e p h =
      let a = attempt parse_time p req n e in
      elim (Bool-cases e.ctx_done) [
        | inl c ↦ simp c
        | inr c ↦ simp c (rw (attempt-retries p req n e h) at (weigh-Adds req attempts n e a.0 a.1))
      ]

  send_loop-retries :
      (fuel : ℕ) (req : Request) (attempts n : ℕ) (env : ℕ → Try fl) (p q : Policy fl) (s : Sent)
      → ((k : ℕ) (q : Policy fl) → ((env k).others q).retries ≡ q.retries)
      → send_loop parse_time fuel req attempts n env p ≡ some (q, s)
      → q.retries ≤ p.retries + (attempts - n)
  unfolding send_loop
  send_loop-retries zero req attempts n env p q s h e = ground arith
  send_loop-retries (suc fuel) req attempts n env p q s h e =
      elim (Passed-cases (pass parse_time req attempts n (env n) p)) [
        | inl (q', s', d) ↦
            let adds : q'.retries ≡ p.retries =
              rw d at (pass-Adds req attempts n (env n) p (h n)) in
            ground (arith, d, adds)
        | inr (q', m) ↦
            let adds : (q'.retries ≡ p.retries + 1) × (n < attempts) =
              rw m at (pass-Adds req attempts n (env n) p (h n)) in
            let rest =
              send_loop-retries fuel req attempts (n + 1) env q' q s h (ground (arith, m)) in
            omega (arith, adds, rest)
      ]

  -- A send that returns has made one retry fewer than the target's attempts at most, and none if the
  -- caller did not ask for retries, the request is not idempotent, or its body cannot be sent again;
  -- the requests beside it leave this count of retries alone.
  pub send-retries :
      (fuel : ℕ) (req : Request) (retry : Bool) (env : ℕ → Try fl) (p q : Policy fl) (s : Sent)
      → ((k : ℕ) (q : Policy fl) → ((env k).others q).retries ≡ q.retries)
      → send_loop parse_time fuel req (attempts_of p req retry) 1 env p ≡ some (q, s)
      → q.retries
        ≤ p.retries
          + (if retry && idempotent req && (req.empty_body || req.has_get_body)
              then pos_part p.cfg.retry_max_attempts - 1
              else 0)
  unfolding attempts_of
  send-retries fuel req retry env p q s h e =
      ground (arith, send_loop-retries fuel req (attempts_of p req retry) 1 env p q s h e)
