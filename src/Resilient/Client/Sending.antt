-- ===== src/Resilient/Client/Sending.antt =====
-- libs/resilient-http-client/client.go: sends that return, retries that stay bounded, and requests
-- that are in flight exactly as long as they are.
use golang_basics.Base.{
  ℕ, zero, suc, ◌+◌, ◌≤◌, ◌<◌, ◌≡◌, ◌≢◌, refl, ◌⊎◌, inl, inr, Bool, Option, none, some, List, [],
  ◌∷◌, String, str_eq, leb, All, Bool-cases, Option-cases, ap, sym, ◌∙◌, arith,
}
use golang_basics.Base.Int.{pos_part}
use golang_basics.Base.Float.{Float64}
use golang_basics.Resilient.Errors.{Request}
use golang_basics.Resilient.Budget
use golang_basics.Resilient.Policy.{Policy, Try, Sent, ok, err, attempt}
use golang_basics.Resilient.Client.{
  Client, Passed, done, more, attempts_of, after_failure, weigh, pass, send_loop, find_target,
  enter, leave, send_to, with_target, send,
}

-- What a send leaves in flight: a success one request more, a failure none.
abbrev pub Flight : ℕ → Sent → ℕ → Type 0
Flight n (ok code) m = m ≡ n + 1
Flight n (err oe) m = m ≡ n

pub Passed-cases :
    {fl : Float64} (x : Passed fl)
    → ((p : Policy fl) × (s : Sent) × (x ≡ done p s)) ⊎ ((p : Policy fl) × (x ≡ more p))
Passed-cases (done p s) = inl (p, s, refl)
Passed-cases (more p) = inr (p, refl)

module _ {fl : Float64} (parse_time : List ℕ → Option ℕ) where
  weigh_last :
      (req : Request) (attempts n : ℕ) (e : Try fl) (p q : Policy fl) (s : Sent)
      → attempts ≤ n
      → weigh req attempts n e p s ≢ more q
  unfolding after_failure
  weigh_last req attempts n e p q (ok code) h m = ground arith
  weigh_last req attempts n e p q (err oe) h m = ground arith

  -- The last attempt is not followed by another.
  pass_last :
      (req : Request) (attempts n : ℕ) (e : Try fl) (p q : Policy fl)
      → attempts ≤ n
      → pass parse_time req attempts n e p ≢ more q
  unfolding pass
  pass_last req attempts n e p q h m =
      let a = attempt parse_time p req n e in
      ground (arith, weigh_last req attempts n e a.0 q a.1 h)

  send_loop-returns :
      (fuel : ℕ) (req : Request) (attempts n : ℕ) (env : ℕ → Try fl) (p : Policy fl)
      → 0 < fuel
      → attempts < n + fuel
      → send_loop parse_time fuel req attempts n env p ≢ none
  unfolding send_loop
  send_loop-returns zero req attempts n env p h g e = omega arith
  send_loop-returns (suc fuel) req attempts n env p h g e =
      elim (Passed-cases (pass parse_time req attempts n (env n) p)) [
        | inl (q, s, d) ↦ ground (arith, d)
        | inr (q, m) ↦ elim (Bool-cases (leb attempts n)) [
          | inl l ↦ pass_last req attempts n (env n) p q (ground arith) m
          | inr l ↦
              send_loop-returns fuel req attempts (n + 1) env q (ground arith) (ground arith)
                (ground arith)
        ]
      ]

  attempts_of-le :
      (p : Policy fl) (req : Request) (retry : Bool) (n : ℕ)
      → 0 < n
      → pos_part p.cfg.retry_max_attempts ≤ n
      → attempts_of p req retry ≤ n
  unfolding attempts_of
  attempts_of-le p req retry n h g = ground arith

  send_to-returns :
      (fuel : ℕ) (target : String) (req : Request) (retry : Bool) (env : ℕ → Try fl) (now : ℕ)
      (p : Policy fl) (c : Client fl)
      → 0 < fuel
      → pos_part p.cfg.retry_max_attempts ≤ fuel
      → send_to parse_time fuel target req retry env now p c ≢ none
  send_to-returns fuel target req retry env now p c h g e =
      let p' = record p { budget = Budget.request p.budget now } in
      elim (Option-cases (send_loop parse_time fuel req (attempts_of p req retry) 1 env p')) [
        | inl n ↦
            send_loop-returns fuel req (attempts_of p req retry) 1 env p' h
              (omega (arith, attempts_of-le p req retry fuel h g)) n
        | inr ((q, ok code), s) ↦ ground (arith, s)
        | inr ((q, err oe), s) ↦ ground (arith, s)
      ]

  with_target-returns :
      (fuel : ℕ) (target : String) (req : Request) (retry : Bool) (env : ℕ → Try fl) (now : ℕ)
      (c : Client fl) (ps : List (Policy fl))
      → 0 < fuel
      → All (λ p. pos_part p.cfg.retry_max_attempts ≤ fuel) ps
      → with_target parse_time fuel target req retry env now c (find_target target ps) ≢ none
  unfolding find_target
  with_target-returns fuel target req retry env now c [] h a e = cc
  with_target-returns fuel target req retry env now c (p ∷ ps) h a e =
      elim (Bool-cases (str_eq p.name target)) [
        | inl here ↦ send_to-returns fuel target req retry env now p c h a.0 (rw here at e)
        | inr other ↦ with_target-returns fuel target req retry env now c ps h a.1 (rw other at e)
      ]

  -- A send returns, when the fuel is not 0 and at least the attempts that each target allows.
  pub send-returns :
      (fuel : ℕ) (c : Client fl) (target : String) (req : Request) (retry : Bool) (env : ℕ → Try fl)
      (now : ℕ)
      → 0 < fuel
      → All (λ p. pos_part p.cfg.retry_max_attempts ≤ fuel) c.targets
      → send parse_time fuel c target req retry env now ≢ none
  unfolding send
  send-returns fuel c target req retry env now h a =
      with_target-returns fuel target req retry env now c c.targets h a

  send_to-Flight :
      (fuel : ℕ) (c c' : Client fl) (target : String) (req : Request) (retry : Bool)
      (env : ℕ → Try fl) (now : ℕ) (s : Sent) (p : Policy fl)
      → send_to parse_time fuel target req retry env now p c ≡ some (c', s)
      → Flight c.in_flight s c'.in_flight
  unfolding enter leave
  send_to-Flight fuel c c' target req retry env now s p e =
      let p' = record p { budget = Budget.request p.budget now } in
      elim (Option-cases (send_loop parse_time fuel req (attempts_of p req retry) 1 env p')) [
        | inl n ↦ ground (arith, n)
        | inr ((q, ok code), l) ↦ ground (arith, l)
        | inr ((q, err oe), l) ↦ ground (arith, l)
      ]

  -- A send that returns an error leaves as many requests in flight as it found, and one that succeeds
  -- leaves one more.
  send-Flight :
      (fuel : ℕ) (c c' : Client fl) (target : String) (req : Request) (retry : Bool)
      (env : ℕ → Try fl) (now : ℕ) (s : Sent)
      → send parse_time fuel c target req retry env now ≡ some (c', s)
      → Flight c.in_flight s c'.in_flight
  unfolding send
  send-Flight fuel c c' target req retry env now s e =
      elim (Option-cases (find_target target c.targets)) [
        | inl n ↦ ground (arith, n)
        | inr (p, f) ↦
            send_to-Flight fuel c c' target req retry env now s p
              (ap (with_target parse_time fuel target req retry env now c) (sym f) ∙ e)
      ]
