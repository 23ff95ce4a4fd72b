-- ===== src/Rdkafka/Poll.antt =====
-- libs/kafka-rdkafka/rdkafka.go: the consumer's Poll, which waits for a first record and takes what is
-- queued. A record is its partition and offset.
mod Dropping
pub mod Survivors
use golang_basics.Base.{
  ℕ, zero, suc, ◌+◌, Bool, true, false, ◌||◌, List, [], ◌∷◌, ◌++◌, length, ltb, if◌then◌else◌,
}
use golang_basics.Kafka.Partitions.{TopicPartition, contains_partition, Mark}

-- What librdkafka's Poll returns: nil, a record, a partition's error, statistics, or an error of the
-- client.
pub data Event : Type 0 where
  nothing : Event
  message : Mark → Event
  partition_error statistics client_error fatal_error : Event

-- One pass of the loop: whether the context has ended before it, what the rebalance callback takes
-- away during librdkafka's Poll, and what that returns.
pub record Round : Type 0 where
  pub is_done : Bool
  pub revoked : List TopicPartition
  pub event : Event

-- The records, with the number of errors beside them.
pub data Polled : Type 0 where
  records : List Mark → ℕ → Polled
  client_closed client_failed : Polled

unfoldable pub drop_gone : List TopicPartition → List Mark → List Mark
drop_gone gone [] = []
drop_gone gone (m ∷ ms) =
    let rest = drop_gone gone ms in if contains_partition gone m.at then rest else m ∷ rest

abbrev is_none : List Mark → Bool
is_none [] = true
is_none (m ∷ ms) = false

-- The end of a pass: `revoked` is read and cleared.
abbrev kept : List TopicPartition → List Mark → List Mark
kept [] out = out
kept (p ∷ ps) out = drop_gone (p ∷ ps) out

-- The loop, with `revoked` as it is before the pass; the context ends after the last one.
unfoldable pub poll_rounds : ℕ → List Round → List TopicPartition → List Mark → ℕ → Polled
poll_rounds limit [] revoked out errs = records out errs
poll_rounds limit (r ∷ rs) revoked out errs = elim (ltb (length out) limit) [
  | false ↦ records out errs
  | true ↦ elim r.is_done [
    | true ↦ records out errs
    | false ↦ elim r.event [
      | nothing ↦ elim (is_none out) [
        | true ↦ poll_rounds limit rs (revoked ++ r.revoked) out errs
        | false ↦ records out errs
      ]
      | message m ↦ poll_rounds limit rs [] (kept (revoked ++ r.revoked) (out ++ (m ∷ []))) errs
      | partition_error ↦ poll_rounds limit rs (revoked ++ r.revoked) out (errs + 1)
      | statistics ↦ poll_rounds limit rs [] (kept (revoked ++ r.revoked) out) errs
      | client_error ↦ poll_rounds limit rs [] (kept (revoked ++ r.revoked) out) (errs + 1)
      | fatal_error ↦ client_failed
    ]
  ]
]

unfoldable pub poll : Bool → ℕ → List Round → Polled
unfolding poll_rounds
poll closing limit rounds = if closing then client_closed else poll_rounds limit rounds [] [] 0
