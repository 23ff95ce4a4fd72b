-- ===== src/Outbox/Relay/Order.antt =====
-- services/tasks/internal/outbox/relay.go: which rows a pass sends, in which order, and the wait.
use golang_basics.Base.{
  ℕ, ◌+◌, ◌-◌, ◌≤◌, ◌<◌, ◌^◌, max, ◌≡◌, ◌≢◌, zero, suc, refl, ap, ◌∙◌, sym, inl, inr, Bool, true,
  false, Option, none, some, List, [], ◌∷◌, ◌++◌, take, ◌==◌, Bool-cases, if◌then◌else◌, arith,
}
use mathlib.Core.List.{append-nil}
use golang_basics.Base.Int.{pos_part}
use golang_basics.Kafka.Processing.Delay.{backoff-bounds}
use golang_basics.Outbox.Relay.{
  Config, Row, Outcome, acknowledged, rejected, outage, Turn, RelayError, Pass, is_past, is_due,
  due_rows, select_batch, published, rejects, after_publish, relay_batch, Relayed, backoff,
  wait_after, after_pass,
}

-- The loop goes on to the next row.
abbrev pub goes_on : Outcome → Bool → Bool
goes_on acknowledged update_ok = true
goes_on rejected update_ok = update_ok
goes_on outage update_ok = false

append_assoc : (xs : List ℕ) (y : ℕ) (zs : List ℕ) → (xs ++ (y ∷ [])) ++ zs ≡ xs ++ (y ∷ zs)
append_assoc [] y zs = refl
append_assoc (x ∷ xs) y zs = ap (λ l. x ∷ l) (append_assoc xs y zs)

true-ne-false : true ≢ false
true-ne-false e = cc

past_of : (now : ℕ) (o : Option ℕ) → is_past o now ≡ true → (t : ℕ) → o ≡ some t → t ≤ now
past_of now none h t e = ground arith
past_of now (some u) h t e = ground arith

past_from : (now : ℕ) (o : Option ℕ) → ((t : ℕ) → o ≡ some t → t ≤ now) → is_past o now ≡ true
past_from now none h = refl
past_from now (some u) h = let le = h u refl in ground arith

module _ {E : Type 0} (cfg : Config) (now : ℕ) where
  -- Neither a dead row nor one that waits out its backoff.
  abbrev pub IsReady : Row E → Type 0
  IsReady r =
      (r.rejections < pos_part cfg.max_attempts) × ((t : ℕ) → r.next_attempt_at ≡ some t → t ≤ now)

  -- The first rows that are ready, at most as many as the number.
  pub data IsReadyPrefix : ℕ → List (Row E) → List (Row E) → Type 0 where
    enough : {rows : List (Row E)} → IsReadyPrefix 0 rows []
    no_more : {n : ℕ} → IsReadyPrefix n [] []
    takes :
        {n : ℕ} {r : Row E} {rows batch : List (Row E)}
        → IsReady r
        → IsReadyPrefix n rows batch
        → IsReadyPrefix (suc n) (r ∷ rows) (r ∷ batch)
    skips :
        {n : ℕ} {r : Row E} {rows batch : List (Row E)}
        → (IsReady r → ⊥)
        → IsReadyPrefix n rows batch
        → IsReadyPrefix n (r ∷ rows) batch

  due-IsReady : (r : Row E) → is_due cfg now r ≡ true → IsReady r
  due-IsReady r e = (ground arith, past_of now r.next_attempt_at (ground arith))

  IsReady-due : (r : Row E) → IsReady r → is_due cfg now r ≡ true
  IsReady-due r (l, h) = let p = past_from now r.next_attempt_at h in ground arith

module _ {E : Type 0} (turns : ℕ → Turn) where
  -- The ids in the order of the batch, up to the shutdown or with the row that stops the batch.
  unfoldable pub sent_prefix : List (Row E) → List ℕ
  sent_prefix [] = []
  sent_prefix (x ∷ xs) =
      let rest = sent_prefix xs in
      let t = turns x.id in
      if t.ctx_done then [] else x.id ∷ (if goes_on t.outcome t.update_ok then rest else [])

  relay_batch-tried :
      (cfg : Config) (now : ℕ) (xs : List (Row E)) (p : Pass E)
      → (relay_batch cfg now turns xs p).tried ≡ p.tried ++ sent_prefix xs
  unfolding relay_batch sent_prefix
  relay_batch-tried cfg now [] p = sym (append-nil p.tried)
  relay_batch-tried cfg now (x ∷ xs) p =
      let t = turns x.id in
      elim (Bool-cases t.ctx_done) [
        | inl c ↦ simp c (sym (append-nil p.tried))
        | inr c ↦ simp c (
            after_publish-tried t.outcome cfg now t x.id p
              (relay_batch cfg now turns xs (published x.id p))
              (relay_batch cfg now turns xs (rejects cfg now t x.id p)) (sent_prefix xs)
              (relay_batch-tried cfg now xs (published x.id p))
              (relay_batch-tried cfg now xs (rejects cfg now t x.id p)))
      ]
    where
      after_publish-tried :
          (o : Outcome) (cfg : Config) (now : ℕ) (t : Turn) (i : ℕ) (p on aside : Pass E)
          (rest : List ℕ)
          → on.tried ≡ (p.tried ++ (i ∷ [])) ++ rest
          → aside.tried ≡ (p.tried ++ (i ∷ [])) ++ rest
          → (after_publish o cfg now t i p on aside).tried
            ≡ p.tried ++ (i ∷ (if goes_on o t.update_ok then rest else []))
      after_publish-tried acknowledged cfg now t i p on aside rest f g =
          f ∙ append_assoc p.tried i rest
      after_publish-tried outage cfg now t i p on aside rest f g = refl
      after_publish-tried rejected cfg now t i p on aside rest f g = elim (Bool-cases t.update_ok) [
        | inl u ↦ simp u (g ∙ append_assoc p.tried i rest)
        | inr u ↦ simp u refl
      ]

  select_batch-IsReadyPrefix :
      (cfg : Config) (now n : ℕ) (rows : List (Row E))
      → IsReadyPrefix cfg now n rows (take n (due_rows cfg now rows))
  unfolding due_rows
  select_batch-IsReadyPrefix cfg now zero rows = enough
  select_batch-IsReadyPrefix cfg now (suc n) [] = no_more
  select_batch-IsReadyPrefix cfg now (suc n) (r ∷ rows) = elim (Bool-cases (is_due cfg now r)) [
    | inl e ↦ rw e (takes (due-IsReady cfg now r e) (select_batch-IsReadyPrefix cfg now n rows))
    | inr e ↦ rw e (
        skips (λ h. true-ne-false (sym (IsReady-due cfg now r h) ∙ e))
          (select_batch-IsReadyPrefix cfg now (suc n) rows))
  ]

  -- A pass tries the rows of a batch in order, up to the row at which it is shut down, or to and with
  -- the first one that an outage or a rejection that is not recorded stops it at; and the batch has,
  -- in the order of the table, its first rows that are ready, as many as a batch may have: those
  -- rejected fewer than max_attempts times that have no time of their next attempt or one that has
  -- come.
  pub relay_batch-order :
      (cfg : Config) (now : ℕ) (rows : List (Row E)) (p : Pass E)
      → p.tried ≡ []
      → ((relay_batch cfg now turns (select_batch cfg now rows) p).tried
          ≡ sent_prefix (select_batch cfg now rows))
        × IsReadyPrefix cfg now (pos_part cfg.batch_size) rows (select_batch cfg now rows)
  unfolding select_batch
  relay_batch-order cfg now rows p e = (
    relay_batch-tried cfg now (select_batch cfg now rows) p
        ∙ ap (λ l. l ++ sent_prefix (select_batch cfg now rows)) e,
    select_batch-IsReadyPrefix cfg now (pos_part cfg.batch_size) rows,
  )

wait_after-bounds :
    (e : Option RelayError) (cfg : Config) (rand : ℕ → ℕ) (failures taken : ℕ)
    → ((b : ℕ) → 1 ≤ b → rand b < b)
    → pos_part cfg.poll_interval < 2 ^ 62
    → pos_part cfg.max_backoff < 2 ^ 62
    → ((wait_after e cfg rand failures taken).1
        ≤ max (pos_part cfg.max_backoff) (pos_part cfg.poll_interval))
      × ((wait_after e cfg rand failures taken).0 ≤ failures + 1)
unfolding backoff
wait_after-bounds none cfg rand failures taken h i k =
    elim (Bool-cases (taken == pos_part cfg.batch_size)) [
      | inl e ↦ simp e (omega arith, omega arith)
      | inr e ↦ simp e (omega arith, omega arith)
    ]
wait_after-bounds (some e) cfg rand failures taken h i k =
    let (le, _) =
      backoff-bounds rand (failures + 1 - 1) (pos_part cfg.poll_interval) (pos_part cfg.max_backoff)
        h i k in
    (omega (arith, le), omega arith)

-- With delays below 2^62 ns and a random number below its bound, the relay never waits longer than
-- the larger of its maximum backoff and its poll interval, and counts at most one failure more after
-- a pass.
after_pass-wait :
    (cfg : Config) (rand : ℕ → ℕ) (failures : ℕ) (r : Relayed)
    → ((b : ℕ) → 1 ≤ b → rand b < b)
    → pos_part cfg.poll_interval < 2 ^ 62
    → pos_part cfg.max_backoff < 2 ^ 62
    → ((after_pass cfg rand failures r).1
        ≤ max (pos_part cfg.max_backoff) (pos_part cfg.poll_interval))
      × ((after_pass cfg rand failures r).0 ≤ failures + 1)
unfolding after_pass
after_pass-wait cfg rand failures r h i k =
    wait_after-bounds r.failure cfg rand failures r.taken h i k
