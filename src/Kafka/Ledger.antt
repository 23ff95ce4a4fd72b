-- ===== src/Kafka/Ledger.antt =====
-- libs/kafka/consumer.go: which records the consumer has finished, and which offsets it commits.
pub mod Commits
pub mod Handover
pub mod Prefix
use golang_basics.Base.{
  ℕ, suc, ◌+◌, ◌-◌, ◌≡◌, Bool, true, false, not, Option, none, some, List, [], ◌∷◌, ◌++◌, ◌==◌,
  if◌then◌else◌,
}
use golang_basics.Kafka.Partitions.{
  TopicPartition, Mark, contains_partition, lookup, erase, put, erase_all, drop_all, add_all,
}

pub record Offset : Type 0 where
  pub at : TopicPartition
  pub next : ℕ

-- `owned` and `pending` are the maps under `mu`; `commits` are the offsets that calls of
-- `cl.Commit` sent, the last ones first.
pub record Consumer : Type 0 where
  pub owned : List TopicPartition
  pub pending : List Mark
  pub commits : List Offset

unfoldable pub new_consumer : Consumer
new_consumer = record { owned = []; pending = []; commits = [] }

unfoldable pub owns : Consumer → TopicPartition → Bool
owns c p = contains_partition c.owned p

unfoldable pub mark_done : Mark → Consumer → Consumer
mark_done m c = record c { pending = put c.pending m.at m.offset }

-- The first loop of `commitLocked`: the entries that stay, and the offsets to commit.
unfoldable pub keep_owned : List TopicPartition → List Mark → List Mark
keep_owned owned [] = []
keep_owned owned (m ∷ ms) =
    let rest = keep_owned owned ms in if contains_partition owned m.at then m ∷ rest else rest

abbrev pub chosen : Option (List TopicPartition) → TopicPartition → Bool
chosen none p = true
chosen (some only) p = contains_partition only p

unfoldable pub offsets_of : Option (List TopicPartition) → List Mark → List Offset
offsets_of only [] = []
offsets_of only (m ∷ ms) =
    let rest = offsets_of only ms in
    if chosen only m.at then record { at = m.at; next = m.offset + 1 } ∷ rest else rest

-- `c.pending[tp] == next-1`, where a missing key reads 0.
abbrev pub holds : Option ℕ → ℕ → Bool
holds none n = n == 0
holds (some off) n = off == n

unfoldable pub clear : List Offset → List Mark → List Mark
clear [] ms = ms
clear (o ∷ os) ms = clear os (if holds (lookup ms o.at) (o.next - 1) then erase ms o.at else ms)

abbrev pub settle_commit : List Offset → Bool → Consumer → Consumer
settle_commit [] commit_ok c = c
settle_commit (o ∷ os) commit_ok c = record c {
  pending = if commit_ok then clear (o ∷ os) c.pending else c.pending;
  commits = (o ∷ os) ++ c.commits;
}

unfoldable pub commit_locked : Option (List TopicPartition) → Bool → Consumer → Consumer
commit_locked only commit_ok c =
    let kept = keep_owned c.owned c.pending in
    settle_commit (offsets_of only kept) commit_ok (record c { pending = kept })

unfoldable pub commit_pending : Bool → Consumer → Consumer
commit_pending commit_ok c = commit_locked none commit_ok c

unfoldable pub forget_locked : List TopicPartition → Consumer → Consumer
forget_locked gone c = record c { owned = drop_all c.owned gone }

unfoldable pub on_assigned : List TopicPartition → Consumer → Consumer
on_assigned parts c = record c { owned = add_all c.owned parts }

unfoldable pub on_revoked : List TopicPartition → Bool → Consumer → Consumer
on_revoked parts commit_ok c =
    let c' = commit_locked (some parts) commit_ok c in
    forget_locked parts (record c' { pending = erase_all c'.pending parts })

unfoldable pub on_lost : List TopicPartition → Consumer → Consumer
on_lost parts c = forget_locked parts (record c { pending = erase_all c.pending parts })

-- The callbacks of the group's client, each with the result of its commit.
pub data Rebalance : Type 0 where
  assigned : List TopicPartition → Rebalance
  revoked : List TopicPartition → Bool → Rebalance
  lost : List TopicPartition → Rebalance

unfoldable pub rebalance : Rebalance → Consumer → Consumer
rebalance (assigned parts) c = on_assigned parts c
rebalance (revoked parts ok) c = on_revoked parts ok c
rebalance (lost parts) c = on_lost parts c

unfoldable pub rebalances : List Rebalance → Consumer → Consumer
rebalances [] c = c
rebalances (r ∷ rs) c = rebalances rs (rebalance r c)

-- How `process` or `processBatch` ends when not with nil.
pub data Stop : Type 0 where
  draining : Stop
  unhandled : Stop

-- One record of a poll: the callbacks that run before it and while its handler runs, whether `ctx`
-- is done when its turn comes, and what `process` returns.
pub record Turn : Type 0 where
  pub at : TopicPartition
  pub offset : ℕ
  pub before : List Rebalance
  pub ctx_done : Bool
  pub during : List Rebalance
  pub result : Option Stop

abbrev pub mark_of : Turn → Mark
mark_of t = record { at = t.at; offset = t.offset }

-- What `processBatch` leaves: the consumer, the records it marked, and its result.
pub record Batch : Type 0 where
  pub consumer : Consumer
  pub finished : List Mark
  pub result : Option Stop

abbrev pub stopped : Stop → Consumer → Batch
stopped s c = record { consumer = c; finished = []; result = some s }

abbrev pub after_mark : Mark → Batch → Batch
after_mark m b = record b { finished = m ∷ b.finished }

unfoldable pub process_batch : List Turn → Consumer → Batch
process_batch [] c = record { consumer = c; finished = []; result = none }
process_batch (t ∷ ts) c =
    let before = rebalances t.before c in
    let during = rebalances t.during before in
    let skipped = process_batch ts before in
    let rest = process_batch ts (mark_done (mark_of t) during) in
    if t.ctx_done
    then stopped draining before
    else if owns before t.at
    then elim t.result [ some s ↦ stopped s during | none ↦ after_mark (mark_of t) rest ]
    else skipped

-- One turn of `Run`'s loop: a poll, what it makes of it, and the callbacks that run when it lets a
-- rebalance through.
pub record Round : Type 0 where
  pub turns : List Turn
  pub commit_ok : Bool
  pub allowed : List Rebalance

unfoldable pub round : Round → Consumer → Batch
round r c =
    let b = process_batch r.turns c in
    record b { consumer = rebalances r.allowed (commit_pending r.commit_ok b.consumer) }

abbrev pub then_batch : Batch → Batch → Batch
then_batch b rest = elim b.result [
  | some s ↦ b
  | none ↦ record rest { finished = b.finished ++ rest.finished }
]

unfoldable pub run : List Round → Consumer → Batch
run [] c = record { consumer = c; finished = []; result = none }
run (r ∷ rs) c = let b = round r c in then_batch b (run rs b.consumer)
