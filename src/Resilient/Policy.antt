-- ===== src/Resilient/Policy.antt =====
-- libs/resilient-http-client/client.go: the policy of one target, and one attempt under it. What the
-- world does in an attempt (clocks, waits, the transport, other requests) is a record of inputs.
pub mod Attempt
pub mod Slots
use golang_basics.Base.{
  ℕ, ◌+◌, Bool, true, false, ◌&&◌, not, Option, none, some, List, [], ◌∷◌, String, ltb, leb,
  if◌then◌else◌,
}
use golang_basics.Base.Int.{pos}
use golang_basics.Base.Float.{Float64}
use golang_basics.Resilient.Config.{TargetConfig}
use golang_basics.Resilient.Errors.{
  Kind, OutboundError, Request, timeout, connection, status, circuit_open, rate_limited,
  bulkhead_full, canceled, redirect, invalid, outbound,
}
use golang_basics.Resilient.Backoff.{parse_retry_after}
use golang_basics.Resilient.Bulkhead.{Bulkhead, Waited, new_bulkhead, acquire, release}
use golang_basics.Resilient.Budget.{RetryBudget, new_retry_budget}
use golang_basics.Resilient.Breaker.{
  Breaker, Ticket, Outcome, success, failure, ignored, new_breaker, allow, record_ticket,
}

-- statusOutcome of metrics.go
pub data StatusClass : Type 0 where
  class_2xx class_3xx class_4xx class_5xx : StatusClass

unfoldable pub status_outcome : ℕ → StatusClass
status_outcome code =
    if leb 500 code
    then class_5xx
    else if leb 400 code
    then class_4xx
    else if leb 300 code
    then class_3xx
    else class_2xx

-- The outcome label of a counted request.
pub data Label : Type 0 where
  of_kind : Kind → Label
  of_status : StatusClass → Label

-- The limiter of golang.org/x/time/rate is not modelled: whether a wait for it succeeds is an input.
-- `requests` are the counted outcomes, the latest first; the other counters are plain.
pub record Policy (fl : Float64) : Type 0 where
  pub name : String
  pub cfg : TargetConfig fl
  pub breaker : Option (Breaker fl)
  pub bulkhead : Option Bulkhead
  pub budget : Option (RetryBudget fl)
  pub requests : List Label
  pub retries : ℕ
  pub budget_exhausted : ℕ
  pub bulkhead_reject : ℕ

-- An error of the transport, by what `classify` asks of it and of the two contexts.
pub record Broken : Type 0 where
  pub is_redirect : Bool
  pub parent_done : Bool
  pub is_timeout : Bool

pub data Reply : Type 0 where
  broken : Broken → Reply
  -- a status and the Retry-After header
  answer : ℕ → List ℕ → Reply

pub record Try (fl : Float64) : Type 0 where
  pub ctx_done : Bool
  pub allow_at : ℕ
  pub limiter_ok : Bool
  pub limiter_ctx_done : Bool
  pub actx_done : Bool
  pub waited : Waited
  pub bulkhead_ctx_done : Bool
  pub body_ok : Bool
  -- what other requests do to the policy while this one is on the wire
  pub others : Policy fl → Policy fl
  pub reply : Reply
  pub reply_at : ℕ
  pub int64n : ℕ → ℕ
  pub until_deadline : ℕ
  pub retry_at : ℕ
  pub slept : Bool

pub data Sent : Type 0 where
  ok : ℕ → Sent
  err : OutboundError → Sent

unfoldable pub classify : Broken → Kind × Outcome
classify e =
    if e.is_redirect
    then (redirect, success)
    else if e.parent_done
    then (canceled, ignored)
    else if e.is_timeout
    then (timeout, failure)
    else (connection, failure)

abbrev retry_after_of : Option ℕ → ℕ
retry_after_of none = 0
retry_after_of (some d) = d

module _ {fl : Float64} where
  unfoldable pub new_policy : TargetConfig fl → Policy fl
  unfolding new_breaker new_bulkhead new_retry_budget
  new_policy tc = record {
    name = tc.name;
    cfg = tc;
    breaker = new_breaker tc;
    bulkhead = new_bulkhead tc;
    budget = new_retry_budget tc;
    requests = [];
    retries = 0;
    budget_exhausted = 0;
    bulkhead_reject = 0;
  }

  abbrev pub count : Label → Policy fl → Policy fl
  count l p = record p { requests = l ∷ p.requests }

  abbrev pub tell : Ticket → Outcome → ℕ → Policy fl → Policy fl
  tell tk o at p = record p { breaker = record_ticket p.breaker tk o at }

  abbrev pub release_slot : Policy fl → Policy fl
  release_slot p = record p { bulkhead = release p.bulkhead }

  abbrev fail : Kind → Policy fl → Policy fl × Sent
  fail kind p = (count (of_kind kind) p, err (outbound kind p.name))

  module _ (parse_time : List ℕ → Option ℕ) where
    -- The transport's answer.
    unfoldable pub settle : Reply → ℕ → Ticket → Policy fl → Policy fl × Sent
    unfolding classify status_outcome
    settle (broken e) at tk p =
        let (kind, o) = classify e in
        let p' = count (of_kind kind) (tell tk o at (release_slot p)) in
        (p', err (outbound kind p.name))
    settle (answer code header) at tk p =
        let o = if leb 500 code then failure else success in
        let p' = count (of_status (status_outcome code)) (tell tk o at p) in
        let oe = record (outbound status p.name) {
          status_code = code;
          retry_after = retry_after_of (parse_retry_after parse_time header at);
        } in
        if ltb code 400 then (p', ok code) else (release_slot p', err oe)

    -- From the bulkhead's slot on.
    unfoldable pub transmit : Request → ℕ → Try fl → Ticket → Policy fl → Policy fl × Sent
    transmit req n e tk p =
        if ltb 1 n && req.has_get_body && not e.body_ok
        then fail invalid (tell tk ignored e.reply_at (release_slot p))
        else settle e.reply e.reply_at tk (e.others p)

    unfoldable pub take_slot : Request → ℕ → Try fl → Ticket → Policy fl → Policy fl × Sent
    take_slot req n e tk p =
        let (bh, got) = acquire p.bulkhead e.actx_done e.waited in
        let p' = record p { bulkhead = bh } in
        let p'' = tell tk ignored e.reply_at p' in
        if not got
        then (if e.bulkhead_ctx_done
            then fail canceled p''
            else fail bulkhead_full (record p'' { bulkhead_reject = p''.bulkhead_reject + 1 }))
        else transmit req n e tk p'

    -- Wait for the rate limiter, if there is one.
    unfoldable pub pass_limiter : Request → ℕ → Try fl → Ticket → Policy fl → Policy fl × Sent
    pass_limiter req n e tk p =
        let p' = tell tk ignored e.reply_at p in
        if fl.lt (fl.of_int (pos 0)) p.cfg.rate_limit && not e.limiter_ok
        then (if e.limiter_ctx_done then fail canceled p' else fail rate_limited p')
        else take_slot req n e tk p

    unfoldable pub attempt : Policy fl → Request → ℕ → Try fl → Policy fl × Sent
    attempt p req n e =
        let (br, (tk, admitted)) = allow p.breaker e.allow_at in
        let p' = record p { breaker = br } in
        if not admitted then fail circuit_open p' else pass_limiter req n e tk p'
