-- ===== src/Tests/Brokers.antt =====
-- Clients of librdkafka: a replacement that races calls and Close, and rebalances within a Poll.
use golang_basics.Base.{ℕ, ◌≤◌, ◌<◌, ◌≡◌, refl, inl, true, false, List, [], ◌∷◌, ◌++◌}
use golang_basics.Kafka.Partitions.{TopicPartition, Mark, contains_partition, same}
use golang_basics.Rdkafka.Producer.{
  Producer, is_closed, returned, new_producer, enter, leave, start_replace, replace, retire,
  begin_close, close_client, end_close, remove, entered, left, failed, replaced, retires, closes,
  destroys, returns, Reach, here, next,
}
use golang_basics.Rdkafka.Producer.Places.{count}
use golang_basics.Rdkafka.Producer.Safe.{clients-closed}
use golang_basics.Rdkafka.Poll.{
  Event, nothing, message, statistics, Round, records, poll, drop_gone,
}
use golang_basics.Rdkafka.Poll.Survivors.{survivors, IsEnd, poll-survivors}

-- A call comes and goes, the client fails and is replaced, and Close ends.
abbrev called : Producer
called = leave 0 (enter new_producer)

abbrev renewed : Producer
renewed = retire 0 (replace true 0 (start_replace 0 called))

abbrev ended : Producer
ended = end_close (close_client (begin_close renewed))

closed_test : ended.destroyed ≡ 1 ∷ 0 ∷ []
unfolding enter leave start_replace replace retire begin_close close_client end_close remove
closed_test = refl

run : Reach new_producer ended
unfolding enter leave start_replace replace retire begin_close close_client end_close remove
run =
    next
      (next
        (next
          (next
            (next
              (next
                (next (next here (entered new_producer)) (left (enter new_producer) 0 (inl refl)))
                (failed called 0 refl))
              (replaced (start_replace 0 called) true 0 refl (inl refl)))
            (retires (replace true 0 (start_replace 0 called)) 0 (inl refl)))
          (closes renewed refl))
        (destroys (begin_close renewed) refl))
      (returns (close_client (begin_close renewed)) refl refl refl)

clients-closed_example :
    (1 ≤ count 1 ended.calls → count 1 ended.destroyed ≡ 0)
    × (count 1 ended.destroyed ≤ 1)
    × (is_closed ended.stage ≡ true → ended.created ≡ ended.created)
    × (ended.stage ≡ returned → 1 < ended.created → count 1 ended.destroyed ≡ 1)
clients-closed_example = clients-closed run here 1

abbrev tasks : ℕ → TopicPartition
tasks n = record { topic = "tasks.events"; partition = n }

abbrev polls : Event → List TopicPartition → Round
polls e ps = record { is_done = false; revoked = ps; event = e }

abbrev mark : ℕ → ℕ → Mark
mark n off = record { at = tasks n; offset = off }

abbrev rounds : List Round
rounds =
    polls nothing []
    ∷ (polls (message (mark 0 7)) []
        ∷ (polls (message (mark 1 4)) []
            ∷ (polls statistics (tasks 0 ∷ []) ∷ (polls nothing [] ∷ []))))

poll_test : poll false 10 rounds ≡ records (mark 1 4 ∷ []) 0
unfolding poll drop_gone contains_partition same
poll_test = refl

poll-survivors_example :
    (taken left : List Round) × (errs : ℕ) × (rounds ≡ taken ++ left)
    × (poll false 10 rounds ≡ records (survivors taken) errs)
    × IsEnd 10 (survivors taken) left
    × ((pre post : List Round) (r : Round)
        → taken ≡ pre ++ (r ∷ post)
        → IsEnd 10 (survivors pre) (r ∷ [])
        → ⊥)
poll-survivors_example = poll-survivors 10 rounds (refl, (tt, (tt, (tt, (refl, tt)))))

-- A revocation in a call that returns nil does not drop what was polled before it.
stale_test :
    poll false 10 (polls (message (mark 0 7)) [] ∷ (polls nothing (tasks 0 ∷ []) ∷ []))
    ≡ records (mark 0 7 ∷ []) 0
unfolding poll drop_gone contains_partition same
stale_test = refl

-- It stays in the set, and drops a record that comes after the partition is assigned again.
lost_test :
    poll false 1 (
      polls nothing (tasks 0 ∷ [])
      ∷ (polls (message (mark 0 7)) [] ∷ (polls (message (mark 0 8)) [] ∷ [])))
    ≡ records (mark 0 8 ∷ []) 0
unfolding poll drop_gone contains_partition same
lost_test = refl
