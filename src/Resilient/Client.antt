-- ===== src/Resilient/Client.antt =====
-- libs/resilient-http-client/client.go: sending a request to a target, with retries.
pub mod Sending
pub mod Retries
pub mod Gate
use golang_basics.Base.{
  ℕ, zero, suc, ◌+◌, ◌-◌, ◌^◌, ◌%◌, max, Bool, true, false, ◌&&◌, ◌||◌, not, Option, none, some,
  List, [], ◌∷◌, String, ltb, leb, ◌==◌, str_eq, is_empty, if◌then◌else◌,
}
use golang_basics.Base.Int.{ℤ, pos, pos_part, ltb_ℤ, leb_ℤ}
use golang_basics.Base.Float.{Float64}
use golang_basics.Resilient.Errors.{
  Kind, OutboundError, Request, shutdown, canceled, invalid, outbound, retryable, idempotent,
}
use golang_basics.Resilient.Backoff.{full_jitter}
use golang_basics.Resilient.Budget
use golang_basics.Resilient.Policy.{
  Policy, Label, of_kind, Try, Sent, ok, err, count, release_slot, attempt,
}

-- `in_flight` is an int64 that only `enter` and `leave` change; `idle` is the channel of one entry.
pub record Client (fl : Float64) : Type 0 where
  pub targets : List (Policy fl)
  pub in_flight : ℕ
  pub closing : Bool
  pub idle : Bool

abbrev past_deadline : Option ℕ → ℕ → ℕ → Bool
past_deadline none left delay = false
past_deadline (some _) left delay = leb left delay

-- What follows a failed attempt: the error is final, or the wait is over and the loop goes on.
pub data Verdict (fl : Float64) : Type 0 where
  final : Policy fl → OutboundError → Verdict fl
  again : Policy fl → Verdict fl

-- One pass of the loop of `send`.
pub data Passed (fl : Float64) : Type 0 where
  done : Policy fl → Sent → Passed fl
  more : Policy fl → Passed fl

unfoldable pub is_absolute : Request → Bool
is_absolute req =
    req.has_url
    && (str_eq req.scheme "http" || str_eq req.scheme "https")
    && not (is_empty req.host)

module _ {fl : Float64} where
  -- The map of policies by name.
  unfoldable pub find_target : String → List (Policy fl) → Option (Policy fl)
  find_target name [] = none
  find_target name (p ∷ ps) = if str_eq p.name name then some p else find_target name ps

  unfoldable pub set_target : String → Policy fl → List (Policy fl) → List (Policy fl)
  set_target name q [] = []
  set_target name q (p ∷ ps) = if str_eq p.name name then q ∷ ps else p ∷ set_target name q ps

  unfoldable pub leave : Client fl → Client fl
  leave c =
      let n = c.in_flight - 1 in
      record c { in_flight = n; idle = if n == 0 && c.closing then true else c.idle }

  unfoldable pub enter : Client fl → Client fl × Bool
  unfolding leave
  enter c =
      let c' = record c { in_flight = c.in_flight + 1 } in
      if c.closing then (leave c', false) else (c', true)

  -- How many attempts a request gets.
  unfoldable pub attempts_of : Policy fl → Request → Bool → ℕ
  attempts_of p req retry =
      if retry
        && ltb_ℤ (pos 1) p.cfg.retry_max_attempts
        && idempotent req
        && (req.empty_body || req.has_get_body)
      then pos_part p.cfg.retry_max_attempts
      else 1

  -- From a failed attempt `n` to the next one.
  unfoldable pub after_failure : Request → ℕ → ℕ → Try fl → OutboundError → Policy fl → Verdict fl
  after_failure req attempts n e oe p =
      let delay =
        max (full_jitter e.int64n n p.cfg.retry_base_delay p.cfg.retry_max_delay) oe.retry_after in
      let (budget, granted) = Budget.try_retry p.budget e.retry_at in
      let p' = record p { budget = budget } in
      if leb attempts n
        || not (retryable oe)
        || ltb_ℤ p.cfg.retry_max_delay (pos oe.retry_after)
        || past_deadline req.deadline e.until_deadline delay
      then final p oe
      else if not granted
      then final (record p' { budget_exhausted = p'.budget_exhausted + 1 }) oe
      else if not e.slept
      then final (count (of_kind canceled) p') (outbound canceled p.name)
      else again (record p' { retries = p'.retries + 1 })

  abbrev judge : Verdict fl → Passed fl
  judge (final p oe) = done p (err oe)
  judge (again p) = more p

  abbrev weigh : Request → ℕ → ℕ → Try fl → Policy fl → Sent → Passed fl
  weigh req attempts n e p (ok code) = done p (ok code)
  weigh req attempts n e p (err oe) = judge (after_failure req attempts n e oe p)

  abbrev put : String → Policy fl → Client fl → Client fl
  put name p c = record c { targets = set_target name p c.targets }

  -- A success keeps the request in flight until its body is closed.
  abbrev finish : String → Client fl → Option (Policy fl × Sent) → Option (Client fl × Sent)
  finish name c none = none
  finish name c (some (p, ok code)) = some (put name p c, ok code)
  finish name c (some (p, err e)) = some (leave (put name p c), err e)

  abbrev closed_body : String → Client fl → Option (Policy fl) → Client fl
  closed_body target c none = c
  closed_body target c (some p) = put target (release_slot p) c

  -- The body of a response is closed once: its slot is given back, and the request has left.
  unfoldable pub close_body : String → Client fl → Client fl
  unfolding leave find_target set_target
  close_body target c = leave (closed_body target c (find_target target c.targets))

  module _ (parse_time : List ℕ → Option ℕ) where
    unfoldable pub pass : Request → ℕ → ℕ → Try fl → Policy fl → Passed fl
    unfolding after_failure
    pass req attempts n e p =
        let (p', sent) = attempt parse_time p req n e in
        if e.ctx_done
        then done (count (of_kind canceled) p) (err (outbound canceled p.name))
        else weigh req attempts n e p' sent

    -- The loop from attempt `n`, with the inputs of each attempt; `none` is out of fuel.
    unfoldable pub send_loop :
        ℕ → Request → ℕ → ℕ → (ℕ → Try fl) → Policy fl → Option (Policy fl × Sent)
    unfolding pass
    send_loop zero req attempts n env p = none
    send_loop (suc fuel) req attempts n env p = elim (pass req attempts n (env n) p) [
      | done p' sent ↦ some (p', sent)
      | more p' ↦ send_loop fuel req attempts (n + 1) env p'
    ]

    abbrev send_to :
        ℕ
        → String
        → Request
        → Bool
        → (ℕ → Try fl)
        → ℕ
        → Policy fl
        → Client fl
        → Option (Client fl × Sent)
    send_to fuel target req retry env now p c =
        let (c', entered) = enter c in
        let p' = record p { budget = Budget.request p.budget now } in
        if not (is_absolute req)
        then some (put target (count (of_kind invalid) p) c, err (outbound invalid target))
        else if not entered
        then some (put target (count (of_kind shutdown) p) c', err (outbound shutdown target))
        else finish target c' (send_loop fuel req (attempts_of p req retry) 1 env p')

    abbrev with_target :
        ℕ
        → String
        → Request
        → Bool
        → (ℕ → Try fl)
        → ℕ
        → Client fl
        → Option (Policy fl)
        → Option (Client fl × Sent)
    with_target fuel target req retry env now c none = some (c, err (outbound invalid target))
    with_target fuel target req retry env now c (some p) = send_to fuel target req retry env now p c

    unfoldable pub send :
        ℕ → Client fl → String → Request → Bool → (ℕ → Try fl) → ℕ → Option (Client fl × Sent)
    unfolding send_loop enter leave attempts_of is_absolute find_target set_target
    send fuel c target req retry env now =
        with_target fuel target req retry env now c (find_target target c.targets)
