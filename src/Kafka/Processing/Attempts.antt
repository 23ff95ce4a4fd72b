-- ===== src/Kafka/Processing/Attempts.antt =====
-- libs/kafka/consumer.go: how often a record is tried, and what becomes of it.
use golang_basics.Base.{
  ℕ, zero, suc, ◌+◌, ◌≤◌, ◌<◌, ◌≡◌, refl, subst, sym, ◌⊎◌, ◌↔◌, inl, inr, true, false, ◌||◌, ◌==◌,
  Option, none, some, List, String, is_empty, ltb, leb, Bool-cases, Option-cases, arith,
}
use golang_basics.Base.Int.{ℤ}
use golang_basics.Kafka.Ledger.{draining, unhandled}
use golang_basics.Kafka.Parking.{Message, Failure, parked}
use golang_basics.Kafka.Processing.{
  max_retries, HandlerError, Invocation, Publish, Handling, handled, interrupted, given_up, handle,
  Parking, acked, cut_short, refused, publish, consume_ok, consume_retried, consume_failed,
  consume_dead_lettered, Processed, ended, of_parking, failure_of, after_handling, process,
}

-- An attempt that failed in a way that is retried, and the wait after it.
abbrev pub IsRetried : Invocation → Type 0
IsRetried i =
    (e : HandlerError) × (i.error ≡ some e)
    × (e.permanent ≡ false)
    × (i.ctx_done ≡ false)
    × (i.slept ≡ true)

-- The loop that starts at attempt `from` comes to attempt `n`.
abbrev pub Comes : ℕ → (ℕ → Invocation) → ℕ → ℕ → Type 0
Comes retries invoke from n =
    (from ≤ n) × (n ≤ retries + 1) × ((m : ℕ) → from ≤ m → m < n → IsRetried (invoke m))

-- What the retry loop leaves after starting at attempt `from`.
abbrev pub IsHandling : ℕ → (ℕ → Invocation) → ℕ → Handling → Type 0
IsHandling retries invoke from (handled n) = Comes retries invoke from n × ((invoke n).error ≡ none)
IsHandling retries invoke from interrupted =
    (n : ℕ) × (e : HandlerError) × Comes retries invoke from n
    × ((invoke n).error ≡ some e)
    × (((invoke n).ctx_done ≡ true)
        ⊎ ((e.permanent ≡ false) × (n ≤ retries) × ((invoke n).slept ≡ false)))
IsHandling retries invoke from (given_up n e) =
    Comes retries invoke from n
    × ((invoke n).error ≡ some e)
    × ((invoke n).ctx_done ≡ false)
    × ((e.permanent ≡ true) ⊎ (n ≡ retries + 1))

here_or_later : (a m : ℕ) → a ≤ m → (a ≡ m) ⊎ (a + 1 ≤ m)
here_or_later a m h = elim (Bool-cases (a == m)) [
  | inl e ↦ inl (ground arith)
  | inr e ↦ inr (ground arith)
]

Comes-now :
    (retries from : ℕ) (invoke : ℕ → Invocation)
    → from ≤ retries + 1
    → Comes retries invoke from from
Comes-now retries from invoke h = (omega arith, h, λ m l g. ground arith)

Comes-later :
    (retries from n : ℕ) (invoke : ℕ → Invocation)
    → IsRetried (invoke from)
    → Comes retries invoke (from + 1) n
    → Comes retries invoke from n
Comes-later retries from n invoke r (l, g, before) = (
  omega (arith, l),
  g,
  λ m a b. elim (here_or_later from m a) [
    | inl e ↦ subst (λ k. IsRetried (invoke k)) e r
    | inr k ↦ before m k b
  ],
)

weaken :
    (retries from : ℕ) (invoke : ℕ → Invocation) (h : Handling)
    → IsRetried (invoke from)
    → IsHandling retries invoke (from + 1) h
    → IsHandling retries invoke from h
weaken retries from invoke (handled n) r (c, x) = (Comes-later retries from n invoke r c, x)
weaken retries from invoke interrupted r (n, e, c, x, y) =
    (n, e, Comes-later retries from n invoke r c, x, y)
weaken retries from invoke (given_up n e) r (c, x, y, z) =
    (Comes-later retries from n invoke r c, x, y, z)

handle-ends :
    (fuel retries from : ℕ) (invoke : ℕ → Invocation)
    → from + fuel ≡ retries + 2
    → 1 ≤ fuel
    → (h : Handling) × (handle fuel retries invoke from ≡ some h) × IsHandling retries invoke from h
unfolding handle
handle-ends zero retries from invoke s pos = elim pos [ ]
handle-ends (suc fuel) retries from invoke s pos =
    let i = invoke from in
    let now = Comes-now retries from invoke (omega (arith, s)) in
    elim (Option-cases i.error) [
      | inl n ↦ (handled from, simp n refl, (now, n))
      | inr (e, n) ↦ elim (Bool-cases i.ctx_done) [
        | inl c ↦ (interrupted, simp (n, c) refl, (from, e, now, n, inl c))
        | inr c ↦ elim (Bool-cases (e.permanent || ltb retries from)) [
          | inl g ↦ (given_up from e, simp (n, c, g) refl, (now, n, c, ground arith))
          | inr g ↦ elim (Bool-cases i.slept) [
            | inr w ↦ (
              interrupted,
              simp (n, c, g, w) refl,
              (from, e, now, n, inr (ground arith, ground arith, w)),
            )
            | inl w ↦
                (let v =
                    handle-ends fuel retries (from + 1) invoke (omega (arith, s)) (ground arith) in
                  (
                    v.0,
                    simp (n, c, g, w) v.1,
                    weaken retries from invoke v.0 (e, n, ground arith, c, w) v.2,
                  ))
          ]
        ]
      ]
    ]

-- What the loop of the publishes leaves after starting at number `from`.
abbrev IsParking : ℕ → (ℕ → Publish) → ℕ → Parking → Type 0
IsParking retries send from acked = (n : ℕ) × (n ≤ retries) × ((send n).acknowledged ≡ true)
IsParking retries send from cut_short = Unit
IsParking retries send from refused =
    (n : ℕ) → from ≤ n → n ≤ retries → (send n).acknowledged ≡ false

refuse_later :
    (retries from : ℕ) (send : ℕ → Publish) (o : Parking)
    → (send from).acknowledged ≡ false
    → IsParking retries send (from + 1) o
    → IsParking retries send from o
refuse_later retries from send acked a x = x
refuse_later retries from send cut_short a x = tt
refuse_later retries from send refused a x = λ n l g. elim (here_or_later from n l) [
  | inl e ↦ subst (λ k. (send k).acknowledged ≡ false) e a
  | inr k ↦ x n k g
]

publish-ends :
    (fuel retries from : ℕ) (send : ℕ → Publish)
    → from + fuel ≡ retries + 1
    → 1 ≤ fuel
    → (o : Parking) × (publish fuel retries send from ≡ some o) × IsParking retries send from o
unfolding publish
publish-ends zero retries from send s pos = elim pos [ ]
publish-ends (suc fuel) retries from send s pos = elim (Bool-cases (send from).acknowledged) [
  | inl a ↦ (acked, simp a refl, (from, omega (arith, s), a))
  | inr a ↦ elim (Bool-cases (send from).ctx_done) [
    | inl c ↦ (cut_short, simp (a, c) refl, tt)
    | inr c ↦ elim (Bool-cases (leb retries from)) [
      | inl l ↦ (
        refused,
        simp (a, c, l) refl,
        λ n g k.
            let same : from ≡ n = ground arith in subst (λ j. (send j).acknowledged ≡ false) same a,
      )
      | inr l ↦ elim (Bool-cases (send from).slept) [
        | inr w ↦ (cut_short, simp (a, c, l, w) refl, tt)
        | inl w ↦
            (let v = publish-ends fuel retries (from + 1) send (omega (arith, s)) (ground arith) in
              (v.0, simp (a, c, l, w) v.1, refuse_later retries from send v.0 a v.2))
      ]
    ]
  ]
]

-- A record is tried at most `max_retries` times after its first: with that much fuel the loop of
-- `process` ends, each attempt before its last one failed with an error that is not permanent and was
-- waited for; the last one succeeded, or failed with a permanent error or as the last that is allowed,
-- or the drain cut it or the wait after it short.
pub handle-IsHandling :
    (retries : ℕ) (invoke : ℕ → Invocation)
    → (h : Handling) × (handle (retries + 1) retries invoke 1 ≡ some h)
      × IsHandling retries invoke 1 h
handle-IsHandling retries invoke =
    handle-ends (retries + 1) retries 1 invoke (omega arith) (omega arith)

module _ (retries : ℕ) (invoke : ℕ → Invocation) (parked_as : Failure → Message) (topic : String)
    (send : Message → ℕ → Publish) where
  -- The message is the copy of the record with the error and the number of the attempt at which its
  -- handling was given up.
  abbrev pub IsCopy : Message → Type 0
  IsCopy m =
      (n : ℕ) × (e : HandlerError) × (handle (retries + 1) retries invoke 1 ≡ some (given_up n e))
      × (m ≡ parked_as (failure_of n e))

  -- What a record comes to.
  abbrev pub IsAccounted : Processed → Type 0
  IsAccounted p =
      ((p.result ≡ none) ↔ (
        (p.counted ≡ some consume_ok)
        ⊎ (p.counted ≡ some consume_retried)
        ⊎ (p.counted ≡ some consume_dead_lettered)))
      × ((p.result ≡ some unhandled) ↔ (p.counted ≡ some consume_failed))
      × (p.counted ≡ some consume_dead_lettered
          → (m : Message) × IsCopy m × (n : ℕ) × (n ≤ retries) × ((send m n).acknowledged ≡ true))
      × (p.counted ≡ some consume_failed
          → (is_empty topic ≡ true)
            ⊎ ((m : Message) × IsCopy m
                × ((n : ℕ) → n ≤ retries → (send m n).acknowledged ≡ false)))

  abbrev Ends : Option Processed → Type 0
  Ends o = (p : Processed) × (o ≡ some p) × IsAccounted p

  of_parking-Ends :
      (m : Message) (o : Parking)
      → IsCopy m
      → IsParking retries (send m) 0 o
      → Ends (of_parking (some o))
  of_parking-Ends m acked c (n, l, a) = (
    ended none (some consume_dead_lettered),
    refl,
    (ground arith, ground arith, (λ e. (m, c, n, l, a)), λ e. ground arith),
  )
  of_parking-Ends m cut_short c x = (
    ended (some draining) none,
    refl,
    (ground arith, ground arith, (λ e. ground arith), λ e. ground arith),
  )
  of_parking-Ends m refused c x = (
    ended (some unhandled) (some consume_failed),
    refl,
    (ground arith, ground arith, (λ e. ground arith), λ e. inr (m, c, λ n l. x n (omega arith) l)),
  )

  after_handling-Ends :
      (h : Handling)
      → handle (retries + 1) retries invoke 1 ≡ some h
      → Ends
          (after_handling parked_as topic (λ m. publish (retries + 1) retries (send m) 0) (some h))
  after_handling-Ends (handled n) x = elim (Bool-cases (ltb 1 n)) [
    | inl b ↦ (
      ended none (some consume_retried),
      simp b refl,
      (ground arith, ground arith, (λ e. ground arith), λ e. ground arith),
    )
    | inr b ↦ (
      ended none (some consume_ok),
      simp b refl,
      (ground arith, ground arith, (λ e. ground arith), λ e. ground arith),
    )
  ]
  after_handling-Ends interrupted x = (
    ended (some draining) none,
    refl,
    (ground arith, ground arith, (λ e. ground arith), λ e. ground arith),
  )
  after_handling-Ends (given_up n e) x = elim (Bool-cases (is_empty topic)) [
    | inl t ↦ (
      ended (some unhandled) (some consume_failed),
      simp t refl,
      (ground arith, ground arith, (λ e. ground arith), λ e. inl t),
    )
    | inr t ↦
        (let m = parked_as (failure_of n e) in
          let (o, p, q) =
            publish-ends (retries + 1) retries 0 (send m) (omega arith) (omega arith) in
          let (v, w, u) = of_parking-Ends m o (n, e, x, refl) q in (v, simp (t, p) w, u))
  ]

module _ (utf8 : String → List ℕ) (itoa : ℕ → List ℕ) where
  -- `process` always ends, and its result is nil, so that the record is marked for commit, exactly
  -- when it counts the record as handled or dead-lettered, and an error that stops the consumer
  -- exactly when it counts it as failed. Where it counts it as dead-lettered, a publish of the
  -- record's copy, with the error and the number of the attempt at which its handling was given up,
  -- was acknowledged; where it counts it as failed, there is no dead-letter topic, or none of the
  -- publishes allowed was acknowledged.
  pub process-IsAccounted :
      (configured : ℤ) (topic : String) (invoke : ℕ → Invocation) (send : Message → ℕ → Publish)
      (r : Message)
      → (p : Processed) × (process utf8 itoa configured topic invoke send r ≡ some p)
        × IsAccounted (max_retries configured) invoke (parked utf8 itoa topic r) topic send p
  unfolding process
  process-IsAccounted configured topic invoke send r =
      let retries = max_retries configured in
      let (h, e, x) = handle-IsHandling retries invoke in
      subst
        (λ o. Ends retries invoke (parked utf8 itoa topic r) topic send (
          after_handling (parked utf8 itoa topic r) topic
            (λ m. publish (retries + 1) retries (send m) 0) o))
        (sym e) (after_handling-Ends retries invoke (parked utf8 itoa topic r) topic send h e)
