-- ===== src/Kafka/Processing.antt =====
-- libs/kafka/consumer.go, message.go and config.go: one record, its retries and its parking.
pub mod Attempts
pub mod Delay
use golang_basics.Base.{
  ℕ, zero, suc, ◌+◌, ◌-◌, ◌*◌, ◌/◌, ◌%◌, ◌^◌, Bool, true, false, ◌&&◌, ◌||◌, not, Option, none,
  some, List, String, str_eq, is_empty, ltb, leb, ◌==◌, if◌then◌else◌,
}
use golang_basics.Base.Int.{ℤ, pos_part}
use golang_basics.Kafka.Ledger.{Stop, draining, unhandled}
use golang_basics.Kafka.Parking.{Message, Failure, parked}

-- int64 values as their bits: those from 2 ^ 63 on are negative.
abbrev pub lt_int64 : ℕ → ℕ → Bool
lt_int64 a b = ltb ((a + 2 ^ 63) % 2 ^ 64) ((b + 2 ^ 63) % 2 ^ 64)

-- The doubling loop of `backoff`, on the iterations left.
unfoldable pub doubled : ℕ → ℕ → ℕ → ℕ
doubled zero d max_delay = d
doubled (suc n) d max_delay =
    let rest = doubled n ((d * 2) % 2 ^ 64) max_delay in if lt_int64 d max_delay then rest else d

-- `rand.N` is an argument.
unfoldable pub backoff : (ℕ → ℕ) → ℕ → ℕ → ℕ → ℕ
backoff rand n initial max_delay =
    let d = doubled n initial max_delay in
    let d' = if lt_int64 max_delay d then max_delay else d in
    let half = if leb (2 ^ 63) d' then 0 else d' / 2 in
    if half == 0 then d' else half + rand (half + 1)

unfoldable pub max_retries : ℤ → ℕ
max_retries configured = pos_part configured

-- What the handler or a publish came to: its error if any, whether `ctx` is done after it, and
-- whether the wait before the next one is slept through.
pub record HandlerError : Type 0 where
  pub permanent : Bool
  pub text : List ℕ

pub record Invocation : Type 0 where
  pub error : Option HandlerError
  pub ctx_done : Bool
  pub slept : Bool

pub record Publish : Type 0 where
  pub acknowledged : Bool
  pub ctx_done : Bool
  pub slept : Bool

-- How the retry loop of `process` ends, with the number of the last attempt.
pub data Handling : Type 0 where
  handled : ℕ → Handling
  interrupted : Handling
  given_up : ℕ → HandlerError → Handling

abbrev pub after_invoke :
    Option HandlerError → ℕ → ℕ → Invocation → Option Handling → Option Handling
after_invoke none retries attempt i rest = some (handled attempt)
after_invoke (some e) retries attempt i rest =
    if i.ctx_done
    then some interrupted
    else if e.permanent || ltb retries attempt
    then some (given_up attempt e)
    else if not i.slept
    then some interrupted
    else rest

-- The retry loop on fuel: `none` is out of fuel.
unfoldable pub handle : ℕ → ℕ → (ℕ → Invocation) → ℕ → Option Handling
handle zero retries invoke attempt = none
handle (suc fuel) retries invoke attempt =
    let rest = handle fuel retries invoke (attempt + 1) in
    after_invoke (invoke attempt).error retries attempt (invoke attempt) rest

-- How `deadLetter`'s loop ends: nil, `errDraining`, or the publish's error.
pub data Parking : Type 0 where
  acked : Parking
  cut_short : Parking
  refused : Parking

unfoldable pub publish : ℕ → ℕ → (ℕ → Publish) → ℕ → Option Parking
publish zero retries send n = none
publish (suc fuel) retries send n =
    let rest = publish fuel retries send (n + 1) in
    let p = send n in
    if p.acknowledged
    then some acked
    else if p.ctx_done
    then some cut_short
    else if leb retries n
    then some refused
    else (if not p.slept then some cut_short else rest)

-- The label of `kafka_consumer_records_total`.
pub data ConsumeResult : Type 0 where
  consume_ok consume_retried consume_failed consume_dead_lettered : ConsumeResult

-- `process`'s result and the label it counts.
pub record Processed : Type 0 where
  pub result : Option Stop
  pub counted : Option ConsumeResult

abbrev pub ended : Option Stop → Option ConsumeResult → Processed
ended result counted = record { result = result; counted = counted }

abbrev pub reason_of : HandlerError → String
reason_of e = if e.permanent then "permanent" else "retries_exhausted"

abbrev pub of_parking : Option Parking → Option Processed
of_parking none = none
of_parking (some acked) = some (ended none (some consume_dead_lettered))
of_parking (some cut_short) = some (ended (some draining) none)
of_parking (some refused) = some (ended (some unhandled) (some consume_failed))

abbrev pub failure_of : ℕ → HandlerError → Failure
failure_of attempt e = record { reason = reason_of e; cause = e.text; attempts = attempt }

-- The part of `process` after its retry loop. `parked_as` is the copy of the record with a failure,
-- `topic` the dead-letter topic, empty when there is none, and `parking` what publishing a message
-- comes to.
abbrev pub after_handling :
    (Failure → Message) → String → (Message → Option Parking) → Option Handling → Option Processed
after_handling parked_as topic parking none = none
after_handling parked_as topic parking (some (handled attempt)) =
    some (ended none (some (if ltb 1 attempt then consume_retried else consume_ok)))
after_handling parked_as topic parking (some interrupted) = some (ended (some draining) none)
after_handling parked_as topic parking (some (given_up attempt e)) =
    if is_empty topic
    then some (ended (some unhandled) (some consume_failed))
    else of_parking (parking (parked_as (failure_of attempt e)))

-- `send` says what becomes of the publishes of a message.
unfoldable pub process :
    (String → List ℕ)
    → (ℕ → List ℕ)
    → ℤ
    → String
    → (ℕ → Invocation)
    → (Message → ℕ → Publish)
    → Message
    → Option Processed
process utf8 itoa configured topic invoke send r =
    let retries = max_retries configured in
    after_handling (parked utf8 itoa topic r) topic (λ m. publish (retries + 1) retries (send m) 0)
      (handle (retries + 1) retries invoke 1)
