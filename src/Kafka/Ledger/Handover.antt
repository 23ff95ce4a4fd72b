-- ===== src/Kafka/Ledger/Handover.antt =====
-- libs/kafka/consumer.go: what a commit and a rebalance leave of the consumer's maps.
use golang_basics.Base.{
  ℕ, ◌+◌, ◌-◌, ◌≡◌, refl, ◌⊎◌, inl, inr, Bool, true, false, Option, none, some, List, [], ◌∷◌, ◌++◌,
  All, IsIn, IsIn-append, ◌∙◌, if◌then◌else◌, Bool-cases, arith,
}
use golang_basics.Kafka.Partitions.{
  TopicPartition, Mark, same, contains_partition, lookup, erase, lookup-erase, lookup-erase_all,
  contains-drop_all, same-contains, same_refl, same→eq, same-lookup,
}
use golang_basics.Kafka.Ledger.{
  Offset, Consumer, owns, keep_owned, chosen, offsets_of, holds, clear, settle_commit,
  commit_locked, commit_pending, forget_locked, on_revoked, on_lost, Rebalance, assigned, revoked,
  lost, rebalance,
}

-- The partitions that a callback takes from the consumer.
abbrev pub gone : Rebalance → TopicPartition → Bool
gone (assigned parts) p = false
gone (revoked parts ok) p = contains_partition parts p
gone (lost parts) p = contains_partition parts p

-- A partition that a callback takes away is no longer owned and has nothing left to commit, whether
-- or not the commit of a revoke went through.
pub rebalance-forgets :
    (r : Rebalance) (c : Consumer) (p : TopicPartition)
    → gone r p ≡ true
    → (lookup (rebalance r c).pending p ≡ none) × (owns (rebalance r c) p ≡ false)
unfolding rebalance on_revoked on_lost forget_locked owns
rebalance-forgets (assigned parts) c p h = ground arith
rebalance-forgets (revoked parts ok) c p h =
    let c' = commit_locked (some parts) ok c in
    ground (arith, lookup-erase_all c'.pending parts p, contains-drop_all c'.owned parts p)
rebalance-forgets (lost parts) c p h =
    ground (arith, lookup-erase_all c.pending parts p, contains-drop_all c.owned parts p)

lookup-keep_owned :
    (qs : List TopicPartition) (ms : List Mark) (p : TopicPartition)
    → lookup (keep_owned qs ms) p ≡ (if contains_partition qs p then lookup ms p else none)
unfolding lookup keep_owned
lookup-keep_owned qs [] p = ground arith
lookup-keep_owned qs (m ∷ ms) p = ground (arith, lookup-keep_owned qs ms p, same-contains qs m.at p)

-- The entries left are some of those of `ms`.
abbrev IsPart : List Mark → List Mark → Type 0
IsPart ns ms = (p : TopicPartition) → (lookup ns p ≡ none) ⊎ (lookup ns p ≡ lookup ms p)

erased-IsPart :
    (m : Mark) (ms ns : List Mark)
    → IsPart ns (m ∷ ms)
    → IsPart (if holds (lookup ns m.at) (m.offset + 1 - 1) then erase ns m.at else ns) ms
unfolding lookup
erased-IsPart m ms ns h q =
    ground (arith, h q, h m.at, lookup-erase ns m.at q, same-lookup ns m.at q, same_refl m.at)

lookup-clear :
    (ms ns : List Mark)
    → IsPart ns ms
    → (p : TopicPartition) → lookup (clear (offsets_of none ms) ns) p ≡ none
unfolding clear offsets_of lookup
lookup-clear [] ns h p = ground (arith, h p)
lookup-clear (m ∷ ms) ns h p =
    lookup-clear ms (if holds (lookup ns m.at) (m.offset + 1 - 1) then erase ns m.at else ns)
      (erased-IsPart m ms ns h) p

offsets_of-owned :
    (only : Option (List TopicPartition)) (qs : List TopicPartition) (ms : List Mark)
    → All (λ o. contains_partition qs o.at ≡ true) (offsets_of only (keep_owned qs ms))
unfolding offsets_of keep_owned
offsets_of-owned only qs [] = tt
offsets_of-owned only qs (m ∷ ms) = elim (Bool-cases (contains_partition qs m.at)) [
  | inl e ↦ simp e (elim (Bool-cases (chosen only m.at)) [
    | inl d ↦ simp d (e, offsets_of-owned only qs ms)
    | inr d ↦ simp d (offsets_of-owned only qs ms)
  ])
  | inr e ↦ simp e (offsets_of-owned only qs ms)
]

settle_commit-pending :
    (os : List Offset) (ok : Bool) (c : Consumer)
    → (settle_commit os ok c).pending ≡ (if ok then clear os c.pending else c.pending)
unfolding clear
settle_commit-pending [] ok c = ground arith
settle_commit-pending (o ∷ os) ok c = refl

settle_commit-commits :
    (os : List Offset) (ok : Bool) (c : Consumer)
    → (settle_commit os ok c).commits ≡ os ++ c.commits
settle_commit-commits [] ok c = refl
settle_commit-commits (o ∷ os) ok c = refl

offsets_of-pending :
    (ms : List Mark) (p : TopicPartition) (off : ℕ)
    → lookup ms p ≡ some off
    → IsIn (record { at = p; next = off + 1 }) (offsets_of none ms)
unfolding lookup offsets_of
offsets_of-pending [] p off h = ground arith
offsets_of-pending (m ∷ ms) p off h = elim (Bool-cases (same m.at p)) [
  | inl e ↦ (let o : some m.offset ≡ some off = simp e at h in inl (cc (o, same→eq m.at p e)))
  | inr e ↦ inr (offsets_of-pending ms p off (simp e at h))
]

-- A commit of everything leaves nothing pending when it succeeds; when it fails, each partition
-- that is owned keeps its entry and the others lose theirs.
commit_pending-left :
    (ok : Bool) (c : Consumer) (p : TopicPartition)
    → lookup (commit_pending ok c).pending p
      ≡ (if ok then none else (if owns c p then lookup c.pending p else none))
unfolding commit_pending commit_locked owns
commit_pending-left ok c p =
    let kept = keep_owned c.owned c.pending in
    let e = settle_commit-pending (offsets_of none kept) ok (record c { pending = kept }) in
    simp e (elim (Bool-cases ok) [
      | inl t ↦ simp t (lookup-clear kept kept (λ q. inr refl) p)
      | inr f ↦ simp f (lookup-keep_owned c.owned c.pending p)
    ])

-- A commit, of everything or of the partitions being revoked, sends offsets of partitions that the
-- consumer owns only.
commit_locked-owned :
    (only : Option (List TopicPartition)) (ok : Bool) (c : Consumer)
    → (sent : List Offset) × ((commit_locked only ok c).commits ≡ sent ++ c.commits)
      × All (λ o. owns c o.at ≡ true) sent
unfolding commit_locked owns
commit_locked-owned only ok c =
    let kept = keep_owned c.owned c.pending in
    (
      offsets_of only kept,
      settle_commit-commits (offsets_of only kept) ok (record c { pending = kept }),
      offsets_of-owned only c.owned c.pending,
    )

-- A commit of everything sends the offset after every mark that is pending for an owned partition.
commit_pending-sends :
    (ok : Bool) (c : Consumer) (p : TopicPartition) (off : ℕ)
    → owns c p ≡ true
    → lookup c.pending p ≡ some off
    → IsIn (record { at = p; next = off + 1 }) (commit_pending ok c).commits
unfolding commit_pending commit_locked owns
commit_pending-sends ok c p off o h =
    let kept = keep_owned c.owned c.pending in
    let e = settle_commit-commits (offsets_of none kept) ok (record c { pending = kept }) in
    simp e (
      IsIn-append (record { at = p; next = off + 1 }) (offsets_of none kept) c.commits
        (offsets_of-pending kept p off (lookup-keep_owned c.owned c.pending p ∙ simp o h)))
