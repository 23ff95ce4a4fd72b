-- ===== src/Kafka/Ledger/Commits.antt =====
-- libs/kafka/consumer.go: a committed position covers a record that was finished.
use golang_basics.Base.{
  ◌+◌, ◌-◌, ◌≡◌, refl, inl, inr, Bool, true, false, Option, none, some, List, [], ◌∷◌, ◌++◌, All,
  IsIn, All-append, All-left, All-right, IsIn-All, Bool-cases, Option-cases,
}
use golang_basics.Kafka.Partitions.{
  TopicPartition, Mark, same, contains_partition, lookup, erase, put, erase_all,
}
use golang_basics.Kafka.Ledger.{
  Offset, Consumer, new_consumer, owns, mark_done, keep_owned, chosen, offsets_of, holds, clear,
  settle_commit, commit_locked, commit_pending, forget_locked, on_assigned, on_revoked, on_lost,
  Rebalance, assigned, revoked, lost, rebalance, rebalances, Turn, mark_of, process_batch, Round,
  round, run,
}

-- An offset that covers a finished record `m` is the position after it.
abbrev pub Covers : (Mark → Type 0) → Offset → Type 0
Covers D o = (m : Mark) × D m × (o.at ≡ m.at) × (o.next ≡ m.offset + 1)

-- Every mark satisfies `D`, and every committed offset comes after a mark that does.
abbrev pub IsSound : (Mark → Type 0) → Consumer → Type 0
IsSound D c = All D c.pending × All (Covers D) c.commits

module _ (D : Mark → Type 0) where
  erase-All : (ms : List Mark) (p : TopicPartition) → All D ms → All D (erase ms p)
  unfolding erase
  erase-All [] p u = u
  erase-All (m ∷ ms) p (d, ds) = elim (Bool-cases (same m.at p)) [
    | inl e ↦ simp e (erase-All ms p ds)
    | inr e ↦ simp e (d, erase-All ms p ds)
  ]

  erase_all-All : (ms : List Mark) (ps : List TopicPartition) → All D ms → All D (erase_all ms ps)
  unfolding erase_all
  erase_all-All ms [] u = u
  erase_all-All ms (p ∷ ps) u = erase_all-All (erase ms p) ps (erase-All ms p u)

  keep_owned-All : (qs : List TopicPartition) (ms : List Mark) → All D ms → All D (keep_owned qs ms)
  unfolding keep_owned
  keep_owned-All qs [] u = u
  keep_owned-All qs (m ∷ ms) (d, ds) = elim (Bool-cases (contains_partition qs m.at)) [
    | inl e ↦ simp e (d, keep_owned-All qs ms ds)
    | inr e ↦ simp e (keep_owned-All qs ms ds)
  ]

  clear-All : (os : List Offset) (ms : List Mark) → All D ms → All D (clear os ms)
  unfolding clear
  clear-All [] ms u = u
  clear-All (o ∷ os) ms u = elim (Bool-cases (holds (lookup ms o.at) (o.next - 1))) [
    | inl e ↦ simp e (clear-All os (erase ms o.at) (erase-All ms o.at u))
    | inr e ↦ simp e (clear-All os ms u)
  ]

  offsets_of-Covers :
      (only : Option (List TopicPartition)) (ms : List Mark)
      → All D ms
      → All (Covers D) (offsets_of only ms)
  unfolding offsets_of
  offsets_of-Covers only [] u = u
  offsets_of-Covers only (m ∷ ms) (d, ds) = elim (Bool-cases (chosen only m.at)) [
    | inl e ↦ simp e ((m, d, refl, refl), offsets_of-Covers only ms ds)
    | inr e ↦ simp e (offsets_of-Covers only ms ds)
  ]

  settle_commit-IsSound :
      (os : List Offset) (ok : Bool) (c : Consumer)
      → All (Covers D) os
      → IsSound D c
      → IsSound D (settle_commit os ok c)
  settle_commit-IsSound [] ok c u s = s
  settle_commit-IsSound (o ∷ os) true c u (a, b) =
      (clear-All (o ∷ os) c.pending a, All-append (Covers D) (o ∷ os) c.commits u b)
  settle_commit-IsSound (o ∷ os) false c u (a, b) =
      (a, All-append (Covers D) (o ∷ os) c.commits u b)

  commit_locked-IsSound :
      (only : Option (List TopicPartition)) (ok : Bool) (c : Consumer)
      → IsSound D c
      → IsSound D (commit_locked only ok c)
  unfolding commit_locked
  commit_locked-IsSound only ok c (a, b) =
      let kept = keep_owned c.owned c.pending in
      let k = keep_owned-All c.owned c.pending a in
      settle_commit-IsSound (offsets_of only kept) ok (record c { pending = kept })
        (offsets_of-Covers only kept k) (k, b)

  rebalance-IsSound : (r : Rebalance) (c : Consumer) → IsSound D c → IsSound D (rebalance r c)
  unfolding rebalance on_assigned on_revoked on_lost forget_locked
  rebalance-IsSound (assigned ps) c s = s
  rebalance-IsSound (revoked ps ok) c s =
      let t = commit_locked-IsSound (some ps) ok c s in
      (erase_all-All (commit_locked (some ps) ok c).pending ps t.0, t.1)
  rebalance-IsSound (lost ps) c (a, b) = (erase_all-All c.pending ps a, b)

  rebalances-IsSound :
      (rs : List Rebalance) (c : Consumer) → IsSound D c → IsSound D (rebalances rs c)
  unfolding rebalances
  rebalances-IsSound [] c s = s
  rebalances-IsSound (r ∷ rs) c s = rebalances-IsSound rs (rebalance r c) (rebalance-IsSound r c s)

  mark_done-IsSound : (m : Mark) (c : Consumer) → D m → IsSound D c → IsSound D (mark_done m c)
  unfolding mark_done put
  mark_done-IsSound m c d (a, b) = ((d, erase-All c.pending m.at a), b)

  process_batch-IsSound :
      (ts : List Turn) (c : Consumer)
      → IsSound D c
      → All D (process_batch ts c).finished
      → IsSound D (process_batch ts c).consumer
  unfolding process_batch
  process_batch-IsSound [] c s u = s
  process_batch-IsSound (t ∷ ts) c s u =
      let c1 = rebalances t.before c in
      let c2 = rebalances t.during c1 in
      let s1 = rebalances-IsSound t.before c s in
      let s2 = rebalances-IsSound t.during c1 s1 in
      elim (Bool-cases t.ctx_done) [
        | inl e ↦ simp e s1
        | inr e ↦ elim (Bool-cases (owns c1 t.at)) [
          | inl o ↦ elim (Option-cases t.result) [
            | inl r ↦
                (let v : All D
                      (mark_of t ∷ (process_batch ts (mark_done (mark_of t) c2)).finished) =
                    simp (e, o, r) at u in
                  simp (e, o, r)
                    (process_batch-IsSound ts (mark_done (mark_of t) c2)
                      (mark_done-IsSound (mark_of t) c2 v.0 s2) v.1))
            | inr (x, r) ↦ simp (e, o, r) s2
          ]
          | inr o ↦
              (let v : All D (process_batch ts c1).finished = simp (e, o) at u in
                simp (e, o) (process_batch-IsSound ts c1 s1 v))
        ]
      ]

  round-IsSound :
      (r : Round) (c : Consumer)
      → IsSound D c
      → All D (round r c).finished
      → IsSound D (round r c).consumer
  unfolding round commit_pending
  round-IsSound r c s u =
      let b = process_batch r.turns c in
      rebalances-IsSound r.allowed (commit_pending r.commit_ok b.consumer)
        (commit_locked-IsSound none r.commit_ok b.consumer (process_batch-IsSound r.turns c s u))

  run-IsSound :
      (rs : List Round) (c : Consumer)
      → IsSound D c
      → All D (run rs c).finished
      → IsSound D (run rs c).consumer
  unfolding run round
  run-IsSound [] c s u = s
  run-IsSound (r ∷ rs) c s u =
      let b = round r c in
      elim (Option-cases b.result) [
        | inl e ↦
            (let v : All D (b.finished ++ (run rs b.consumer).finished) = simp e at u in
              simp e (
                run-IsSound rs b.consumer
                  (round-IsSound r c s (All-left D b.finished (run rs b.consumer).finished v))
                  (All-right D b.finished (run rs b.consumer).finished v)))
        | inr (x, e) ↦ (let v : All D b.finished = simp e at u in simp e (round-IsSound r c s v))
      ]

-- A consumer only ever commits the position after a record that it finished: every offset that a
-- run from a new consumer sends, whatever is polled, however handlers and commits end and whenever
-- partitions are assigned, revoked or lost, is one more than that of a record, of that partition,
-- that the run finished, and so is every mark still pending.
pub run-commits_finished :
    (rs : List Round)
    → IsSound (λ m. IsIn m (run rs new_consumer).finished) (run rs new_consumer).consumer
unfolding new_consumer
run-commits_finished rs =
    let D : Mark → Type 0 = λ m. IsIn m (run rs new_consumer).finished in
    run-IsSound D rs new_consumer (tt, tt) (IsIn-All D (run rs new_consumer).finished (λ m i. i))
