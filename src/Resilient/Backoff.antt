-- ===== src/Resilient/Backoff.antt =====
-- libs/resilient-http-client/backoff.go: the delay before a retry, and the Retry-After header.
pub mod Header
use golang_basics.Base.{
  ℕ, suc, ◌+◌, ◌*◌, ◌-◌, ◌^◌, min, max, Bool, true, false, ◌&&◌, Option, none, some, List, [], ◌∷◌,
  ltb, leb, ◌==◌, trim_space, if◌then◌else◌,
}
use golang_basics.Base.Int.{ℤ, pos_part}
use golang_basics.Base.Decimal.{is_digit}
use golang_basics.Resilient.Config.{second}

-- `rand.Int64N` is an argument. A product of a float64 with a power of two is exact, so the ceiling
-- is computed in the numbers; a negative base or cap has a ceiling below 1 and stands as 0.
unfoldable pub full_jitter : (ℕ → ℕ) → ℕ → ℤ → ℤ → ℕ
full_jitter int64n retry base cap_delay =
    let ceiling = min (pos_part base * 2 ^ min retry 62) (pos_part cap_delay) in
    if retry == 0 then 0 else (if ltb ceiling 1 then 0 else int64n (ceiling + 1))

abbrev pub max_retry_after : ℕ
max_retry_after = 86400 * second

pub data Parsed : Type 0 where
  value : ℕ → Parsed
  err_range : Parsed
  err_syntax : Parsed

-- strconv.ParseUint(v, 10, 64) on what is left of the digits, after `n`: it stops at the first byte
-- that is no digit, and at the first digit that overflows.
unfoldable pub parse_uint : ℕ → List ℕ → Parsed
parse_uint n [] = value n
parse_uint n (c ∷ cs) =
    let n' = n * 10 + (c - b'0') in
    let rest = parse_uint n' cs in
    if is_digit c then (if ltb n' (2 ^ 64) then rest else err_range) else err_syntax

abbrev of_seconds : Parsed → Option ℕ
of_seconds (value secs) = some (if leb 86400 secs then max_retry_after else secs * second)
of_seconds err_range = some max_retry_after
of_seconds err_syntax = none

-- `http.ParseTime` is an argument; the date that it gives is in nanoseconds.
abbrev of_date : Option ℕ → ℕ → Option ℕ
of_date none now = none
of_date (some t) now = some (min (t - now) max_retry_after)

abbrev parse_trimmed : (List ℕ → Option ℕ) → List ℕ → ℕ → Option ℕ
parse_trimmed parse_time [] now = none
parse_trimmed parse_time (c ∷ cs) now =
    if is_digit c then of_seconds (parse_uint 0 (c ∷ cs)) else of_date (parse_time (c ∷ cs)) now

unfoldable pub parse_retry_after : (List ℕ → Option ℕ) → List ℕ → ℕ → Option ℕ
unfolding parse_uint
parse_retry_after parse_time v now = parse_trimmed parse_time (trim_space v) now
