-- ===== src/Rdkafka/Producer/Safe.antt =====
-- libs/kafka-rdkafka/rdkafka.go: no client is used after it was closed, none is closed twice or leaks.
use golang_basics.Base.{ℕ, ◌≤◌, ◌<◌, ◌≡◌, refl, ap, ◌∙◌, inl, inr, true, ◌==◌, Bool-cases, arith}
use golang_basics.Rdkafka.Producer.{
  is_open, returned, Producer, new_producer, is_closed, enter, leave, start_replace, replace,
  retire, begin_close, close_client, end_close, Step, entered, left, failed, replaced, retires,
  closes, destroys, returns, Reach, here, next,
}
use golang_basics.Rdkafka.Producer.Places.{
  count, IsValid, in_use_by, open_of, enter-IsValid, leave-IsValid, start_replace-IsValid,
  replace-IsValid, retire-IsValid, begin_close-IsValid, close_client-IsValid, end_close-IsValid,
}

Step-IsValid : {p q : Producer} → Step p q → IsValid p → IsValid q
Step-IsValid (entered p) v = enter-IsValid p v
Step-IsValid (left p i m) v = leave-IsValid p i m v
Step-IsValid (failed p i e) v = start_replace-IsValid p i v
Step-IsValid (replaced p ok i e m) v = replace-IsValid p ok i e v
Step-IsValid (retires p i m) v = retire-IsValid p i m v
Step-IsValid (closes p e) v = begin_close-IsValid p e v
Step-IsValid (destroys p e) v = close_client-IsValid p e v
Step-IsValid (returns p e r t) v = end_close-IsValid p e t v

new_producer-IsValid : IsValid new_producer
new_producer-IsValid = record {
  placed = λ i. ground arith;
  inside = λ i n. refl;
  free = λ e. refl;
  settled = λ e. refl;
}

Reach-IsValid : {p q : Producer} → IsValid p → Reach p q → IsValid q
Reach-IsValid v here = v
Reach-IsValid v (next r st) = Step-IsValid st (Reach-IsValid v r)

Step-created :
    {p q : Producer}
    → Step p q
    → is_closed p.stage ≡ true
    → (q.created ≡ p.created) × (is_closed q.stage ≡ true)
unfolding enter leave start_replace replace retire begin_close close_client end_close
Step-created (entered p) c = ground arith
Step-created (left p i m) c = (refl, c)
Step-created (failed p i e) c = ground arith
Step-created (replaced p ok i e m) c = ground arith
Step-created (retires p i m) c = (refl, c)
Step-created (closes p e) c = ground arith
Step-created (destroys p e) c = (refl, refl)
Step-created (returns p e r t) c = (refl, refl)

Reach-created :
    {p q : Producer}
    → is_closed p.stage ≡ true
    → Reach p q
    → (q.created ≡ p.created) × (is_closed q.stage ≡ true)
Reach-created c here = (refl, c)
Reach-created c (next r st) =
    let (e, d) = Reach-created c r in let (f, g) = Step-created st d in (f ∙ e, g)

inside-open : (p : Producer) (i : ℕ) → IsValid p → 1 ≤ count i p.calls → count i p.destroyed ≡ 0
inside-open p i v h = elim (Bool-cases (is_closed p.stage)) [
  | inl c ↦ let none_left = ap (count i) (v.free c) in ground arith
  | inr c ↦ elim (Bool-cases (p.cl == i)) [
    | inl e ↦ ground (arith, v.placed i, in_use_by i p.cl p.stage is_open (open_of p.stage c))
    | inr e ↦ ground (arith, v.inside i)
  ]
]

-- However calls, fatal errors, replacements and Close interleave: a client with a call inside has
-- not been closed, none is closed twice, once Close has begun no client is created, and when Close
-- has returned every client that was created has been closed, once.
pub clients-closed :
    {p q : Producer}
    → Reach new_producer p
    → Reach p q
    → (i : ℕ)
    → (1 ≤ count i p.calls → count i p.destroyed ≡ 0)
      × (count i p.destroyed ≤ 1)
      × (is_closed p.stage ≡ true → q.created ≡ p.created)
      × (p.stage ≡ returned → i < p.created → count i p.destroyed ≡ 1)
clients-closed {p} r s i =
    let v = Reach-IsValid new_producer-IsValid r in
    (
      λ h. inside-open p i v h,
      ground (arith, v.placed i),
      λ c. (Reach-created c s).0,
      λ e h.
          ground
            (arith, v.placed i, in_use_by i p.cl p.stage returned e, ap (count i) (v.settled e)),
    )
