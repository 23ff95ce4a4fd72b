-- ===== src/Tests/Delivery.antt =====
-- libs/kafka: a partition assigned, read, committed and taken away.
use golang_basics.Base.{
  ℕ, ◌+◌, ◌%◌, ◌≡◌, refl, true, false, Option, none, some, List, [], ◌∷◌, IsIn, runes, ◌==◌,
}
use golang_basics.Base.Int.{pos}
use golang_basics.Kafka.Partitions.{
  TopicPartition, contains_partition, same, lookup, erase, put, drop_partition, add_partition,
  erase_all, drop_all, add_all,
}
use golang_basics.Kafka.Ledger.{
  Consumer, new_consumer, owns, commit_locked, commit_pending, assigned, revoked, lost, rebalance,
  Stop, unhandled, Turn, process_batch, Round, run, round, rebalances, on_assigned, on_lost,
  forget_locked, mark_done, keep_owned, offsets_of, clear,
}
use golang_basics.Kafka.Ledger.Commits.{IsSound, run-commits_finished}
use golang_basics.Kafka.Ledger.Handover.{rebalance-forgets}
use golang_basics.Kafka.Ledger.Prefix.{IsPrefix, process_batch-IsPrefix}
use golang_basics.Kafka.Parking.{Message, Failure, parked}
use golang_basics.Kafka.Parking.Replay.{parked-replayed}
use golang_basics.Kafka.Processing.{
  Invocation, Publish, Handling, handle, Processed, max_retries, process,
}
use golang_basics.Kafka.Processing.Attempts.{
  IsHandling, IsAccounted, handle-IsHandling, process-IsAccounted,
}

abbrev tasks_0 : TopicPartition
tasks_0 = record { topic = "tasks"; partition = 0 }

abbrev tasks_1 : TopicPartition
tasks_1 = record { topic = "tasks"; partition = 1 }

abbrev turn : TopicPartition → ℕ → Option Stop → Turn
turn p off result = record {
  at = p;
  offset = off;
  before = [];
  ctx_done = false;
  during = [];
  result = result;
}

abbrev two_rounds : List Round
two_rounds =
    record { turns = []; commit_ok = true; allowed = assigned (tasks_0 ∷ []) ∷ [] }
    ∷ record {
      turns = turn tasks_0 7 none ∷ turn tasks_1 3 none ∷ turn tasks_0 8 none ∷ [];
      commit_ok = true;
      allowed = lost (tasks_0 ∷ []) ∷ [];
    }
    ∷ []

-- Two records of the partition that is owned are committed, the other's is left.
run_test : (run two_rounds new_consumer).consumer.commits ≡ record { at = tasks_0; next = 9 } ∷ []
unfolding run round process_batch rebalances rebalance on_assigned on_lost forget_locked owns
    mark_done commit_pending commit_locked keep_owned offsets_of clear new_consumer
    contains_partition same lookup erase put drop_partition add_partition erase_all drop_all add_all
run_test = refl

run-commits_finished_example :
    IsSound
      (λ m. IsIn m (run two_rounds new_consumer).finished)
      (run two_rounds new_consumer).consumer
run-commits_finished_example = run-commits_finished two_rounds

abbrev owner : Consumer
owner = record {
  owned = tasks_0 ∷ [];
  pending = record { at = tasks_0; offset = 4 } ∷ record { at = tasks_1; offset = 2 } ∷ [];
  commits = [];
}

abbrev batch : List Turn
batch =
    turn tasks_0 5 none
    ∷ turn tasks_1 9 none
    ∷ turn tasks_0 6 (some unhandled)
    ∷ turn tasks_0 7 none
    ∷ []

process_batch-IsPrefix_example :
    IsPrefix (tasks_0 ∷ []) owner.pending batch tasks_0 (process_batch batch owner)
process_batch-IsPrefix_example =
    process_batch-IsPrefix batch owner tasks_0
      ((refl, refl), ((refl, refl), ((refl, refl), ((refl, refl), tt))))

rebalance-forgets_example :
    (lookup (rebalance (revoked (tasks_0 ∷ []) false) owner).pending tasks_0 ≡ none)
    × (owns (rebalance (revoked (tasks_0 ∷ []) false) owner) tasks_0 ≡ false)
unfolding contains_partition same
rebalance-forgets_example = rebalance-forgets (revoked (tasks_0 ∷ []) false) owner tasks_0 refl

-- A record with two headers, one of them of an earlier parking.
abbrev parked_before : Message
parked_before = record {
  topic = "tasks";
  key = [];
  value = [];
  partition = 3;
  offset = 17;
  headers =
      record { key = "event_id"; value = 1 ∷ [] }
      ∷ record { key = "dlq_reason"; value = 2 ∷ [] }
      ∷ [];
}

abbrev failure : Failure
failure = record { reason = "permanent"; cause = 5 ∷ []; attempts = 1 }

abbrev digit : ℕ → List ℕ
digit n = (48 + n % 10) ∷ []

parked-replayed_example :
    (parked runes digit "tasks.dlq"
      (record parked_before {
        headers = (parked runes digit "tasks.dlq" parked_before failure).headers;
      })
      failure).headers
    ≡ (parked runes digit "tasks.dlq"
        (record parked_before { headers = parked_before.headers })
        failure).headers
parked-replayed_example =
    parked-replayed runes digit "tasks.dlq" "tasks.dlq" parked_before parked_before failure failure

abbrev fails : ℕ → Invocation
fails n = record {
  error = some (record { permanent = false; text = [] });
  ctx_done = false;
  slept = true;
}

abbrev unreachable : ℕ → Publish
unreachable n = record { acknowledged = n == 1; ctx_done = false; slept = true }

handle-IsHandling_example : (h : Handling) × (handle 3 2 fails 1 ≡ some h) × IsHandling 2 fails 1 h
handle-IsHandling_example = handle-IsHandling 2 fails

process-IsAccounted_example :
    (p : Processed) × (process runes digit
        (pos 2)
        "tasks.dlq"
        fails
        (λ m. unreachable)
        parked_before
      ≡ some p)
    × IsAccounted 2 fails
        (parked runes digit "tasks.dlq" parked_before)
        "tasks.dlq"
        (λ m. unreachable)
        p
unfolding max_retries
process-IsAccounted_example =
    process-IsAccounted runes digit (pos 2) "tasks.dlq" fails (λ m. unreachable) parked_before
