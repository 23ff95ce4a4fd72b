-- ===== src/Kafka/Processing/Delay.antt =====
-- libs/kafka/message.go: the delay before a retry.
use golang_basics.Base.{
  ℕ, zero, suc, ◌+◌, ◌*◌, ◌/◌, ◌%◌, ◌^◌, ◌≤◌, ◌<◌, min, ◌≡◌, inl, inr, ltb, if◌then◌else◌,
  Bool-cases, ltb→lt, arith,
}
use golang_basics.Kafka.Processing.{lt_int64, doubled, backoff}

lt_int64-small : (a b : ℕ) → a < 2 ^ 63 → b < 2 ^ 63 → lt_int64 a b ≡ ltb a b
lt_int64-small a b h k = ground arith

doubled-bounds :
    (n d m : ℕ) → d < 2 ^ 63 → m < 2 ^ 62 → (doubled n d m < 2 ^ 63) × (min d m ≤ doubled n d m)
unfolding doubled
doubled-bounds zero d m h k = (h, omega arith)
doubled-bounds (suc n) d m h k = elim (Bool-cases (ltb d m)) [
  | inl e ↦
      (let lt = ltb→lt d m e in
        let two : (d * 2) % 2 ^ 64 ≡ d * 2 = omega (arith, lt, k) in
        let v = doubled-bounds n (d * 2) m (omega (arith, lt, k)) k in
        simp (lt_int64-small d m h (omega (arith, k)), e, two) (v.0, omega (arith, v.1)))
  | inr e ↦ simp (lt_int64-small d m h (omega (arith, k)), e) (h, omega arith)
]

-- For delays below 2 ^ 62 ns and a random number below its bound, the delay before a retry is at
-- most the configured maximum, and at least half of the initial delay or of that maximum.
pub backoff-bounds :
    (rand : ℕ → ℕ) (n initial max_delay : ℕ)
    → ((b : ℕ) → 1 ≤ b → rand b < b)
    → initial < 2 ^ 62
    → max_delay < 2 ^ 62
    → (backoff rand n initial max_delay ≤ max_delay)
      × (min initial max_delay / 2 ≤ backoff rand n initial max_delay)
unfolding backoff
backoff-bounds rand n initial max_delay r h k =
    let d = doubled n initial max_delay in
    let (lt, le) = doubled-bounds n initial max_delay (omega (arith, h)) k in
    let capped : (if lt_int64 max_delay d then max_delay else d) ≡ min d max_delay =
      ground (arith, lt_int64-small max_delay d (omega (arith, k)) lt) in
    let half = min d max_delay / 2 in ground (arith, capped, lt, le, k, r (half + 1) (omega arith))
