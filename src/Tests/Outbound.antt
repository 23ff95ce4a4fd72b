-- ===== src/Tests/Outbound.antt =====
-- libs/resilient-http-client: one send, its attempts, and a shutdown beside them.
use golang_basics.Base.{
  ℕ, ◌+◌, ◌-◌, ◌≤◌, ◌<◌, ◌≡◌, ◌≢◌, ◌⊎◌, refl, ap, true, false, ◌&&◌, ◌||◌, Option, none, some, List,
  [], ◌∷◌, trim_space, trim_left, if◌then◌else◌, arith,
}
use golang_basics.Base.Int.{pos, pos_part}
use golang_basics.Base.Float.{micro}
use golang_basics.Resilient.Config.{TargetConfig, second, default_target}
use golang_basics.Resilient.Backoff.{parse_retry_after, parse_uint, full_jitter}
use golang_basics.Resilient.Budget.{try_retry}
use golang_basics.Resilient.Errors.{retryable, retryable_status, Request, idempotent}
use golang_basics.Resilient.Bulkhead.{Bulkhead, slot_case, acquire, release}
use golang_basics.Resilient.Breaker.{Breaker, fresh, closed, allow, allow_try, record_ticket}
use golang_basics.Resilient.Breaker.Probes.{Reach}
use golang_basics.Resilient.Policy.{
  Policy, Try, Sent, ok, answer, attempt, pass_limiter, take_slot, transmit, settle, status_outcome,
}
use golang_basics.Resilient.Policy.Attempt.{Ends, attempt-Reach}
use golang_basics.Resilient.Policy.Slots.{OthersHold, SlotKept, attempt-SlotKept}
use golang_basics.Resilient.Client.{Client, attempts_of, pass, after_failure, send_loop, send}
use golang_basics.Resilient.Client.Sending.{send-returns}
use golang_basics.Resilient.Client.Retries.{send-retries}
use golang_basics.Resilient.Client.Gate.{
  Gate, Step, new_gate, add, admit, refuse, leave_last, check_closing, close, load_zero, load_more,
  Shutdown-drained, Shutdown-woken,
}
use golang_basics.Resilient.Client.Gate as Gates

abbrev no_date : List ℕ → Option ℕ
no_date v = none

abbrev target : TargetConfig micro
target = default_target micro "users"

abbrev empty_breaker : Breaker micro
empty_breaker = record {
  cur = fresh closed 0;
  version = 0;
  win = record { slot = 1; slots = [] };
  win_gen = 0;
  ratio = 500000;
  min_requests = pos 20;
  open_timeout = pos second;
  max_probes = pos 1;
  changes = [];
}

abbrev free : Bulkhead
free = record { slots = 4; in_use = 1; stuck = 0; wait = pos 0 }

abbrev policy : Policy micro
policy = record {
  name = "users";
  cfg = target;
  breaker = some empty_breaker;
  bulkhead = some free;
  budget = none;
  requests = [];
  retries = 0;
  budget_exhausted = 0;
  bulkhead_reject = 0;
}

abbrev request : Request
request = record {
  method = "GET";
  scheme = "http";
  host = "users";
  has_url = true;
  idempotency_key = "";
  empty_body = true;
  has_get_body = false;
  deadline = none;
}

abbrev try_with : (Policy micro → Policy micro) → ℕ → Try micro
try_with others code = record {
  ctx_done = false;
  allow_at = 5;
  limiter_ok = true;
  limiter_ctx_done = false;
  actx_done = false;
  waited = record { in_use = 1; fired = slot_case };
  bulkhead_ctx_done = false;
  body_ok = true;
  others = others;
  reply = answer code [];
  reply_at = 6;
  int64n = λ n. 0;
  until_deadline = 0;
  retry_at = 7;
  slept = true;
}

abbrev alone : Policy micro → Policy micro
alone p = p

abbrev freed : Option Bulkhead → Option Bulkhead
freed none = none
freed (some b) = some (record b { in_use = 3 })

-- Others take and give back slots, until they hold two.
abbrev crowd : Policy micro → Policy micro
crowd p = record p { bulkhead = freed p.bulkhead }

crowd-OthersHold : OthersHold 2 crowd
crowd-OthersHold q b h = ap freed h

attempt-SlotKept_example : SlotKept 2 free 1 (attempt no_date policy request 1 (try_with crowd 503))
attempt-SlotKept_example =
    attempt-SlotKept no_date 2 policy request 1 (try_with crowd 503) free crowd-OthersHold refl
      (omega arith) (omega arith) (omega arith)

attempt-Reach_example :
    Ends no_date policy (try_with alone 200) (attempt no_date policy request 1 (try_with alone 200))
    × (b' : Breaker micro) × ((attempt no_date policy request 1 (try_with alone 200)).0.breaker
        ≡ some b')
    × Reach (record { b = empty_breaker; out = [] }) (record { b = b'; out = [] })
attempt-Reach_example =
    attempt-Reach no_date policy request 1 (try_with alone 200) empty_breaker [] refl (λ q. refl)
      (omega arith)

abbrev client : Client micro
client = record { targets = policy ∷ []; in_flight = 2; closing = false; idle = false }

abbrev answers : ℕ → Try micro
answers n = try_with alone 200

few : pos_part target.retry_max_attempts ≤ 9
unfolding default_target
few = omega arith

send-returns_example : send no_date 9 client "users" request true answers 4 ≢ none
send-returns_example =
    send-returns no_date 9 client "users" request true answers 4 (omega arith) (few, tt)

abbrev or_client : Option (Client micro × Sent) → Client micro × Sent
or_client none = (client, ok 0)
or_client (some x) = x

abbrev sent : Client micro × Sent
sent = or_client (send no_date 9 client "users" request true answers 4)

send-sent : send no_date 9 client "users" request true answers 4 ≡ some (sent.0, sent.1)
unfolding send send_loop pass attempt allow allow_try pass_limiter default_target take_slot acquire
    transmit settle
send-sent = refl

abbrev or_policy : Option (Policy micro × Sent) → Policy micro × Sent
or_policy none = (policy, ok 0)
or_policy (some x) = x

-- A target with retries alone.
abbrev unguarded : Policy micro
unguarded = record policy {
  breaker = none;
  bulkhead = none;
  cfg = record target { retry_max_attempts = pos 2 };
}

-- Every attempt gets a 503.
abbrev busy : ℕ → Try micro
busy n = try_with alone 503

abbrev retried : Policy micro × Sent
retried =
    or_policy (send_loop no_date 9 request (attempts_of unguarded request true) 1 busy unguarded)

send_loop-retried :
    send_loop no_date 9 request (attempts_of unguarded request true) 1 busy unguarded
    ≡ some (retried.0, retried.1)
unfolding send_loop pass attempt attempts_of allow pass_limiter default_target take_slot acquire
    release transmit settle idempotent retryable retryable_status parse_retry_after parse_uint
    trim_space trim_left try_retry record_ticket after_failure full_jitter status_outcome
send_loop-retried = refl

send-retries_example :
    retried.0.retries
    ≤ unguarded.retries
      + (if true && idempotent request && (true || false)
          then pos_part unguarded.cfg.retry_max_attempts - 1
          else 0)
send-retries_example =
    send-retries no_date 9 request true busy unguarded retried.0 retried.1 (λ k q. refl)
      send_loop-retried

-- A request is in flight when Shutdown starts; it leaves, and the signal is on its way.
abbrev entered : Gate
entered = record new_gate { in_flight = 1; active = 1 }

waits : Gates.Reach new_gate (record entered {
  closing = true;
  calls = 1;
  waiting = 1;
  in_flight = 0;
  active = 0;
  checking = 1;
})
waits =
    Gates.next
      (Gates.next (Gates.next (Gates.next (Gates.next Gates.here add) (admit 0 refl refl)) close)
        (load_more 0 0 refl refl))
      (leave_last 0 refl refl)

Shutdown-woken_example : (false ≡ true) ⊎ (0 < 1)
Shutdown-woken_example = Shutdown-woken waits refl (omega arith) refl

abbrev stopped : Gate
stopped = record new_gate { closing = true; calls = 1; returned = 1 }

reached_stopped : Gates.Reach new_gate stopped
reached_stopped = Gates.next (Gates.next Gates.here close) (load_zero 0 refl refl)

-- A request that comes later is refused.
abbrev refusing : Gate
refusing = record stopped { in_flight = 1; refused = 1 }

turned_away : Gates.Reach stopped refusing
turned_away = Gates.next (Gates.next Gates.here add) (refuse 0 refl refl)

Shutdown-drained_example : refusing.active ≡ 0
Shutdown-drained_example = Shutdown-drained reached_stopped (omega arith) turned_away
