-- ===== src/Resilient/Errors.antt =====
-- libs/resilient-http-client/errors.go and the classification of a failure in backoff.go.
use golang_basics.Base.{
  ℕ, Bool, true, false, ◌&&◌, ◌||◌, Option, String, leb, ◌==◌, str_eq, is_empty, if◌then◌else◌,
}

pub data Kind : Type 0 where
  timeout connection status circuit_open rate_limited : Kind
  bulkhead_full shutdown canceled redirect invalid : Kind

pub Kind-discrete : Discrete Kind
Kind-discrete = hlevel

-- The underlying cause is left out: no decision of the client reads it.
pub record OutboundError : Type 0 where
  pub kind : Kind
  pub target : String
  pub status_code : ℕ
  pub retry_after : ℕ

-- An error with a kind alone.
abbrev pub outbound : Kind → String → OutboundError
outbound k target = record { kind = k; target = target; status_code = 0; retry_after = 0 }

unfoldable pub retryable_status : ℕ → Bool
retryable_status code =
    if code == 408 || code == 425 || code == 429
    then true
    else if code == 501 || code == 505
    then false
    else leb 500 code && leb code 599

abbrev retryable_kind : Kind → ℕ → Bool
retryable_kind timeout code = true
retryable_kind connection code = true
retryable_kind status code = retryable_status code
retryable_kind _ code = false

unfoldable pub retryable : OutboundError → Bool
unfolding retryable_status
retryable e = retryable_kind e.kind e.status_code

-- The request as far as the client reads it: `has_get_body` where GetBody is set, `empty_body` where
-- Body is nil or http.NoBody.
pub record Request : Type 0 where
  pub method : String
  pub scheme : String
  pub host : String
  pub has_url : Bool
  pub idempotency_key : String
  pub empty_body : Bool
  pub has_get_body : Bool
  pub deadline : Option ℕ

unfoldable pub idempotent : Request → Bool
idempotent req =
    if is_empty req.method
      || str_eq req.method "GET"
      || str_eq req.method "HEAD"
      || str_eq req.method "OPTIONS"
      || str_eq req.method "PUT"
      || str_eq req.method "DELETE"
    then true
    else (if is_empty req.idempotency_key then false else true)

-- methodLabel of metrics.go
unfoldable pub method_label : String → String
method_label m =
    if is_empty m
    then "GET"
    else if str_eq m "GET"
        || str_eq m "HEAD"
        || str_eq m "POST"
        || str_eq m "PUT"
        || str_eq m "PATCH"
        || str_eq m "DELETE"
        || str_eq m "OPTIONS"
        || str_eq m "CONNECT"
        || str_eq m "TRACE"
    then m
    else "_OTHER"
