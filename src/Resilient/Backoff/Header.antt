-- ===== src/Resilient/Backoff/Header.antt =====
-- libs/resilient-http-client/backoff.go: bounds of a delay, and the Retry-After header read back.
use native.Mathlib.Nat.{pow-le-pow_right}
use golang_basics.Base.{
  ℕ, ◌+◌, ◌*◌, ◌-◌, ◌^◌, ◌≤◌, ◌<◌, min, ◌≡◌, true, Option, some, List, [], ◌∷◌, ltb, All,
  trim_space, if◌then◌else◌, arith,
}
use golang_basics.Base.Int.{ℤ, pos_part}
use golang_basics.Base.Decimal.{is_digit, decimal}
use golang_basics.Resilient.Config.{second}
use golang_basics.Resilient.Backoff.{
  full_jitter, max_retry_after, value, err_range, parse_uint, parse_trimmed, parse_retry_after,
}

le_scaled : (k m n : ℕ) → m ≤ n → k * m ≤ k * n
le_scaled k m n h = grind arith

-- With a random number below its bound, a delay is at most the cap, and at most base × 2^retry.
full_jitter_bounds :
    (int64n : ℕ → ℕ) (retry : ℕ) (base cap_delay : ℤ)
    → ((n : ℕ) → 0 < n → int64n n < n)
    → (full_jitter int64n retry base cap_delay ≤ pos_part cap_delay)
      × (full_jitter int64n retry base cap_delay ≤ pos_part base * 2 ^ retry)
unfolding full_jitter
full_jitter_bounds int64n retry base cap_delay h = ground (
  arith,
  h (min (pos_part base * 2 ^ min retry 62) (pos_part cap_delay) + 1),
  le_scaled (pos_part base) _ _
      (pow-le-pow_right {n = 2} (omega arith) {i = min retry 62} {j = retry} (omega arith)),
)

le-decimal : (n : ℕ) (cs : List ℕ) → n ≤ decimal n cs
le-decimal n [] = omega arith
le-decimal n (c ∷ cs) = omega (arith, le-decimal (n * 10 + (c - b'0')) cs)

pub parse_uint-decimal :
    (n : ℕ) (cs : List ℕ)
    → n < 2 ^ 64
    → All (λ c. is_digit c ≡ true) cs
    → parse_uint n cs ≡ (if ltb (decimal n cs) (2 ^ 64) then value (decimal n cs) else err_range)
unfolding parse_uint
parse_uint-decimal n [] h ds = ground arith
parse_uint-decimal n (c ∷ cs) h ds =
    ground (arith, parse_uint-decimal (n * 10 + (c - b'0')) cs, le-decimal (n * 10 + (c - b'0')) cs)

-- A Retry-After of decimal digits is that many seconds, however many digits there are, and at most
-- a day.
parse_retry_after-decimal :
    (parse_time : List ℕ → Option ℕ) (now c : ℕ) (v cs : List ℕ)
    → trim_space v ≡ c ∷ cs
    → All (λ c. is_digit c ≡ true) (c ∷ cs)
    → parse_retry_after parse_time v now ≡ some (min (decimal 0 (c ∷ cs)) 86400 * second)
unfolding parse_retry_after
parse_retry_after-decimal parse_time now c v cs t ds =
    rw t (ground (arith, parse_uint-decimal 0 (c ∷ cs) (omega arith) ds))

parse_trimmed-le :
    (parse_time : List ℕ → Option ℕ) (v : List ℕ) (now d : ℕ)
    → parse_trimmed parse_time v now ≡ some d
    → d ≤ max_retry_after
parse_trimmed-le parse_time [] now d h = cc
parse_trimmed-le parse_time (c ∷ cs) now d h = ground arith

-- Whatever the header says, the delay is at most a day.
parse_retry_after-le :
    (parse_time : List ℕ → Option ℕ) (v : List ℕ) (now d : ℕ)
    → parse_retry_after parse_time v now ≡ some d
    → d ≤ max_retry_after
unfolding parse_retry_after
parse_retry_after-le parse_time v now d h = parse_trimmed-le parse_time (trim_space v) now d h
