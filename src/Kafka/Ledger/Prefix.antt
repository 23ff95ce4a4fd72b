-- ===== src/Kafka/Ledger/Prefix.antt =====
-- libs/kafka/consumer.go: what a batch marks is a prefix of each partition's records.
use golang_basics.Base.{
  ℕ, ◌≡◌, refl, ap, ◌∙◌, inl, inr, Bool, true, false, not, ◌&&◌, ◌||◌, Option, none, some, List, [],
  ◌∷◌, All, if◌then◌else◌, Bool-cases, Option-cases,
}
use golang_basics.Kafka.Partitions.{
  TopicPartition, Mark, same, contains_partition, lookup, lookup-put,
}
use golang_basics.Kafka.Ledger.{
  Consumer, owns, mark_done, rebalances, Stop, Turn, mark_of, Batch, process_batch,
}

-- No callback runs while the batch is in flight, as when the client holds rebalances back until
-- `AllowRebalance`.
abbrev pub IsHeld : Turn → Type 0
IsHeld t = (t.before ≡ []) × (t.during ≡ [])

abbrev pub is_none : Option Stop → Bool
is_none none = true
is_none (some s) = false

-- The loop goes past a record: it started, and it is another member's or it was handled.
abbrev pub passes : List TopicPartition → Turn → Bool
passes owned t = not t.ctx_done && (not (contains_partition owned t.at) || is_none t.result)

-- The records of owned partitions before the first one that the loop does not go past.
unfoldable pub handled_prefix : List TopicPartition → List Turn → List Mark
handled_prefix owned [] = []
handled_prefix owned (t ∷ ts) =
    let rest = handled_prefix owned ts in
    if passes owned t
    then (if contains_partition owned t.at then mark_of t ∷ rest else rest)
    else []

unfoldable pub all_pass : List TopicPartition → List Turn → Bool
all_pass owned [] = true
all_pass owned (t ∷ ts) = let rest = all_pass owned ts in passes owned t && rest

-- What is pending for `p` after the records `ms` were marked in turn.
unfoldable pub last_of : List Mark → TopicPartition → Option ℕ → Option ℕ
last_of [] p before = before
last_of (m ∷ ms) p before = last_of ms p (if same m.at p then some m.offset else before)

-- What a batch leaves, where `p` is any partition.
abbrev pub IsPrefix : List TopicPartition → List Mark → List Turn → TopicPartition → Batch → Type 0
IsPrefix owned pending ts p b =
    (b.finished ≡ handled_prefix owned ts)
    × (is_none b.result ≡ all_pass owned ts)
    × (lookup b.consumer.pending p ≡ last_of (handled_prefix owned ts) p (lookup pending p))
    × (b.consumer.owned ≡ owned)

-- While no rebalance runs, a batch marks the records of owned partitions up to the first record that
-- was drained or not handled, all of them when there is none, so that the offset pending for each
-- partition is that of its last record before that point; and the batch ends with nil exactly when
-- there is no such record.
pub process_batch-IsPrefix :
    (ts : List Turn) (c : Consumer) (p : TopicPartition)
    → All IsHeld ts
    → IsPrefix c.owned c.pending ts p (process_batch ts c)
unfolding process_batch owns mark_done handled_prefix all_pass last_of rebalances
process_batch-IsPrefix [] c p h = (refl, refl, refl, refl)
process_batch-IsPrefix (t ∷ ts) c p ((b, d), h) =
    let m = mark_of t in
    let v = process_batch-IsPrefix ts (mark_done m c) p h in
    let w = process_batch-IsPrefix ts c p h in
    elim (Bool-cases t.ctx_done) [
      | inl e ↦ simp (b, e) (refl, refl, refl, refl)
      | inr e ↦ elim (Bool-cases (contains_partition c.owned t.at)) [
        | inr o ↦ simp (b, e, o) w
        | inl o ↦ elim (Option-cases t.result) [
          | inl r ↦
              simp (b, d, e, o, r)
                (
                  ap (λ ms. m ∷ ms) v.0,
                  v.1,
                  v.2
                      ∙ ap (last_of (handled_prefix c.owned ts) p)
                          (lookup-put c.pending m.at p m.offset),
                  v.3,
                )
          | inr (s, r) ↦ simp (b, d, e, o, r) (refl, refl, refl, refl)
        ]
      ]
    ]
