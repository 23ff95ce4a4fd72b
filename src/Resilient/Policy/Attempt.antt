-- ===== src/Resilient/Policy/Attempt.antt =====
-- libs/resilient-http-client/client.go: what an attempt leaves behind. It gives back the bulkhead's
-- slot and the breaker's ticket on every path but a success, which keeps the slot.
use golang_basics.Base.{
  ℕ, ◌+◌, ◌^◌, ◌<◌, ◌≡◌, refl, ◌⊎◌, inl, inr, Bool, true, false, ◌&&◌, not, Option, some, List, [],
  ltb, leb, if◌then◌else◌, Bool-cases, Option-cases, ap, ◌∙◌, arith,
}
use golang_basics.Base.Int.{pos}
use golang_basics.Base.Float.{Float64}
use golang_basics.Resilient.Errors.{
  Request, timeout, connection, status, redirect, circuit_open, outbound,
}
use golang_basics.Resilient.Bulkhead.{acquire}
use golang_basics.Resilient.Breaker.{
  Breaker, Ticket, Outcome, success, failure, ignored, allow_try, allow, record_ticket,
}
use golang_basics.Resilient.Breaker.Probes.{Reach, admits, refuses, ends, here, next}
use golang_basics.Resilient.Breaker.Races.{allow_try_alone, record_probe-ne-none}
use golang_basics.Resilient.Breaker.Cases.{gen-allow}
use golang_basics.Resilient.Policy.{
  Policy, Try, Reply, Sent, ok, err, broken, answer, classify, settle, transmit, take_slot,
  pass_limiter, attempt,
}

-- What the breaker is to hear of an attempt that ended so: a failure when the target did not answer in
-- time, could not be reached or answered with 5xx; nothing of what the client itself ended; a success
-- otherwise.
pub expected : Sent → Outcome
expected (ok code) = success
expected (err e) = elim e.kind [
  | timeout ↦ failure
  | connection ↦ failure
  | status ↦ if leb 500 e.status_code then failure else success
  | redirect ↦ success
  | _ ↦ ignored
]

module _ {fl : Float64} (parse_time : List ℕ → Option ℕ) where
  -- The breaker hears of an admitted request once.
  abbrev Tells : Option (Breaker fl) → Ticket → ℕ → Policy fl × Sent → Type 0
  Tells br tk at r = r.0.breaker ≡ record_ticket br tk (expected r.1) at

  settle-Tells :
      (r : Reply) (at : ℕ) (tk : Ticket) (p : Policy fl)
      → Tells p.breaker tk at (settle parse_time r at tk p)
  unfolding settle expected classify
  settle-Tells (broken e) at tk p = ground arith
  settle-Tells (answer code h) at tk p = ground arith

  transmit-Tells :
      (req : Request) (n : ℕ) (e : Try fl) (tk : Ticket) (p : Policy fl)
      → ((q : Policy fl) → (e.others q).breaker ≡ q.breaker)
      → Tells p.breaker tk e.reply_at (transmit parse_time req n e tk p)
  unfolding transmit expected
  transmit-Tells req n e tk p h = elim (Bool-cases (ltb 1 n && req.has_get_body && not e.body_ok)) [
    | inl c ↦ simp c refl
    | inr c ↦ simp c (
        settle-Tells e.reply e.reply_at tk (e.others p)
        ∙ ap
            (λ b.
              record_ticket b tk (expected (settle parse_time e.reply e.reply_at tk (e.others p)).1)
                e.reply_at)
            (h p))
  ]

  take_slot-Tells :
      (req : Request) (n : ℕ) (e : Try fl) (tk : Ticket) (p : Policy fl)
      → ((q : Policy fl) → (e.others q).breaker ≡ q.breaker)
      → Tells p.breaker tk e.reply_at (take_slot parse_time req n e tk p)
  unfolding take_slot expected
  take_slot-Tells req n e tk p h =
      let a = acquire p.bulkhead e.actx_done e.waited in
      elim (Bool-cases a.1) [
        | inl c ↦ simp c (transmit-Tells req n e tk (record p { bulkhead = a.0 }) h)
        | inr c ↦ elim (Bool-cases e.bulkhead_ctx_done) [
          | inl d ↦ simp (c, d) refl
          | inr d ↦ simp (c, d) refl
        ]
      ]

  pass_limiter-Tells :
      (req : Request) (n : ℕ) (e : Try fl) (tk : Ticket) (p : Policy fl)
      → ((q : Policy fl) → (e.others q).breaker ≡ q.breaker)
      → Tells p.breaker tk e.reply_at (pass_limiter parse_time req n e tk p)
  unfolding pass_limiter expected
  pass_limiter-Tells req n e tk p h =
      elim (Bool-cases (fl.lt (fl.of_int (pos 0)) p.cfg.rate_limit && not e.limiter_ok)) [
        | inl c ↦ elim (Bool-cases e.limiter_ctx_done) [
          | inl d ↦ simp (c, d) refl
          | inr d ↦ simp (c, d) refl
        ]
        | inr c ↦ simp c (take_slot-Tells req n e tk p h)
      ]

  -- An attempt is an admission and one report of its ticket, or a refusal that reports nothing.
  abbrev pub Ends : Policy fl → Try fl → Policy fl × Sent → Type 0
  Ends p e r =
      let a = allow p.breaker e.allow_at in
      ((a.1.1 ≡ true) × (r.0.breaker ≡ record_ticket a.0 a.1.0 (expected r.1) e.reply_at))
      ⊎ ((a.1.1 ≡ false) × (r.0.breaker ≡ a.0) × (r.1 ≡ err (outbound circuit_open p.name)))

  attempt-Ends :
      (p : Policy fl) (req : Request) (n : ℕ) (e : Try fl)
      → ((q : Policy fl) → (e.others q).breaker ≡ q.breaker)
      → Ends p e (attempt parse_time p req n e)
  unfolding attempt
  attempt-Ends p req n e h =
      let a = allow p.breaker e.allow_at in
      elim (Bool-cases a.1.1) [
        | inl c ↦
            let t = pass_limiter-Tells req n e a.1.0 (record p { breaker = a.0 }) h in
            inl (c, simp c t)
        | inr c ↦ inr (c, simp c refl, simp c refl)
      ]

-- One admission and one report, as steps of the requests that run beside each other.
module _ {fl : Float64} where
  allow-some :
      (b : Breaker fl) (now : ℕ)
      → (c : Breaker fl) × (t : Ticket) × (admitted : Bool) × (allow_try now b b
          ≡ some (c, (t, admitted)))
        × (allow (some b) now ≡ (some c, (t, admitted)))
  unfolding allow
  allow-some b now = elim (Option-cases (allow_try now b b)) [
    | inl e ↦ absurd (allow_try_alone now b e)
    | inr (x, e) ↦ (x.0, x.1.0, x.1.1, e, rw e)
  ]

  record_ticket-some :
      (b : Breaker fl) (t : Ticket) (o : Outcome) (at : ℕ)
      → (c : Breaker fl) × (record_ticket (some b) t o at ≡ some c)
  unfolding record_ticket
  record_ticket-some b t o at = elim (Option-cases (record_ticket (some b) t o at)) [
    | inl e ↦ absurd (ground (arith, record_probe-ne-none [] t o at b))
    | inr s ↦ s
  ]

  attempt_reaches :
      (parse_time : List ℕ → Option ℕ) (p : Policy fl) (req : Request) (n : ℕ) (e : Try fl)
      (b : Breaker fl) (out : List Ticket)
      → p.breaker ≡ some b
      → ((q : Policy fl) → (e.others q).breaker ≡ q.breaker)
      → b.cur.gen + 2 < 2 ^ 64
      → (b' : Breaker fl) × ((attempt parse_time p req n e).0.breaker ≡ some b')
        × Reach (record { b = b; out = out }) (record { b = b'; out = out })
  attempt_reaches parse_time p req n e b out h others g =
      let (c, t, admitted, step, whole) = allow-some b e.allow_at in
      let allowed = ap (λ x. allow x e.allow_at) h ∙ whole in
      elim (attempt-Ends parse_time p req n e others) [
        | inl (yes_, told) ↦
            let o = expected (attempt parse_time p req n e).1 in
            let at = e.reply_at in
            let (c', r) = record_ticket-some c t o at in
            let taken : allow_try e.allow_at b b ≡ some (c, (t, true)) = ground arith in
            (
              c',
              ground (arith, allowed, told, r),
              next (next here (admits e.allow_at t taken (omega arith)))
                  (ends t o at [] out refl r (omega (arith, gen-allow e.allow_at b c t taken))),
            )
        | inr (no_, same, open_) ↦
            (c, ground (arith, allowed), next here (refuses e.allow_at t (ground (arith, allowed))))
      ]

  -- Where no other request uses the breaker meanwhile and it is fewer than two generations from
  -- 2^64: an attempt is an admission and one report of its ticket, with the outcome that its result
  -- calls for, or a refusal for an open circuit that reports nothing; both are steps of the breaker
  -- that leave no ticket over.
  pub attempt-Reach :
      (parse_time : List ℕ → Option ℕ) (p : Policy fl) (req : Request) (n : ℕ) (e : Try fl)
      (b : Breaker fl) (out : List Ticket)
      → p.breaker ≡ some b
      → ((q : Policy fl) → (e.others q).breaker ≡ q.breaker)
      → b.cur.gen + 2 < 2 ^ 64
      → Ends parse_time p e (attempt parse_time p req n e)
        × (b' : Breaker fl) × ((attempt parse_time p req n e).0.breaker ≡ some b')
        × Reach (record { b = b; out = out }) (record { b = b'; out = out })
  attempt-Reach parse_time p req n e b out h others g =
      let (b', told, reached) = attempt_reaches parse_time p req n e b out h others g in
      (attempt-Ends parse_time p req n e others, b', told, reached)
