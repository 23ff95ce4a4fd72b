-- ===== src/Outbox/Relay/Keeps.antt =====
-- services/tasks/internal/outbox/relay.go: what a pass keeps of the table, and what it sends.
use golang_basics.Base.{
  ℕ, ◌≡◌, refl, ap, ◌∙◌, sym, ◌⊎◌, inl, inr, Bool, true, false, ◌&&◌, not, Option, none, some, List,
  [], ◌∷◌, ◌++◌, length, ◌==◌, ==_iff, IsIn, Bool-cases, if◌then◌else◌, arith,
}
use golang_basics.Tasks.Store.{Commit, committed, refused, lost}
use golang_basics.Outbox.Relay.{
  Config, Row, Outcome, acknowledged, rejected, outage, Turn, Pass, has_id, select_batch,
  update_row, delete_rows, reject_row, fail_row, published, rejects, breaks, after_publish,
  relay_batch, Database, Relayed, end_commit, finish_pass, with_lock, relay_once,
}

has_id-append :
    (js : List ℕ) (k i : ℕ) → has_id (js ++ (k ∷ [])) i ≡ true → (has_id js i ≡ true) ⊎ (k ≡ i)
unfolding has_id
has_id-append [] k i h = ground arith
has_id-append (j ∷ js) k i h = ground (arith, has_id-append js k i)

module _ {E : Type 0} (turns : ℕ → Turn) where
  -- A row is still there with its event, and its count of rejections went up only if the broker
  -- rejected it.
  abbrev pub IsKept : List (Row E) → Row E → Type 0
  IsKept table r =
      (r' : Row E) × IsIn r' table
      × (r'.id ≡ r.id)
      × (r'.event ≡ r.event)
      × ((r'.rejections ≡ r.rejections) ⊎ ((turns r.id).outcome ≡ rejected))

  -- An update of one row that keeps its id and event, and counts only a rejection.
  abbrev IsUpdate : ℕ → (Row E → Row E) → Type 0
  IsUpdate i f =
      (r : Row E)
      → ((f r).id ≡ r.id)
        × ((f r).event ≡ r.event)
        × (((f r).rejections ≡ r.rejections) ⊎ ((turns i).outcome ≡ rejected))

  update_row-IsIn :
      (i : ℕ) (f : Row E → Row E) (rows : List (Row E)) (r : Row E)
      → IsIn r rows
      → IsIn (if r.id == i then f r else r) (update_row i f rows)
  unfolding update_row
  update_row-IsIn i f [] r m = m
  update_row-IsIn i f (x ∷ xs) r (inl e) = inl (ap (λ y. if y.id == i then f y else y) e)
  update_row-IsIn i f (x ∷ xs) r (inr m) = inr (update_row-IsIn i f xs r m)

  update_row-IsKept :
      (i : ℕ) (f : Row E → Row E) (rows : List (Row E)) (r : Row E)
      → IsUpdate i f
      → IsKept rows r
      → IsKept (update_row i f rows) r
  update_row-IsKept i f rows r u (r', m, same, event, count) =
      let m' = update_row-IsIn i f rows r' m in
      elim (Bool-cases (r'.id == i)) [
        | inr e ↦
            (let still : IsIn r' (update_row i f rows) = simp e at m' in
              (r', still, same, event, count))
        | inl e ↦
            (let here : IsIn (f r') (update_row i f rows) = simp e at m' in
              let (id, ev, c) = u r' in
              let i_id : r.id ≡ i = sym same ∙ (==_iff r'.id i).0 e in
              (
                f r',
                here,
                id ∙ same,
                ev ∙ event,
                elim c [
                  | inr x ↦ inr (ap (λ j. (turns j).outcome) i_id ∙ x)
                  | inl a ↦ elim count [ inl b ↦ inl (a ∙ b) | inr x ↦ inr x ]
                ],
              ))
      ]

  reject_row-IsUpdate :
      (cfg : Config) (now i : ℕ) (text : List ℕ)
      → (turns i).outcome ≡ rejected
      → IsUpdate i (reject_row cfg now text)
  reject_row-IsUpdate cfg now i text h r = (refl, refl, inr h)

  fail_row-IsUpdate : (i : ℕ) (text : List ℕ) → IsUpdate i (fail_row text)
  fail_row-IsUpdate i text r = (refl, refl, inl refl)

  -- What the loop keeps of the rows `rows`: their content, and that only acknowledged ids are done.
  abbrev IsSafe : List (Row E) → Pass E → Type 0
  IsSafe rows p =
      ((r : Row E) → IsIn r rows → IsKept p.table r)
      × ((i : ℕ) → has_id p.done i ≡ true → (turns i).outcome ≡ acknowledged)

  published-IsSafe :
      (i : ℕ) (rows : List (Row E)) (p : Pass E)
      → (turns i).outcome ≡ acknowledged
      → IsSafe rows p
      → IsSafe rows (published i p)
  published-IsSafe i rows p a (kept, done) = (
    kept,
    λ j h. elim (has_id-append p.done i j h) [
      | inl d ↦ done j d
      | inr e ↦ ap (λ k. (turns k).outcome) (sym e) ∙ a
    ],
  )

  rejects-IsSafe :
      (cfg : Config) (now i : ℕ) (rows : List (Row E)) (p : Pass E)
      → (turns i).outcome ≡ rejected
      → IsSafe rows p
      → IsSafe rows (rejects cfg now (turns i) i p)
  rejects-IsSafe cfg now i rows p h (kept, done) = (
    λ r m. elim (Bool-cases (turns i).update_ok) [
      | inl u ↦ simp u (
          update_row-IsKept i (reject_row cfg now (turns i).text) p.table r
            (reject_row-IsUpdate cfg now i (turns i).text h) (kept r m))
      | inr u ↦ simp u (kept r m)
    ],
    done,
  )

  breaks-IsSafe :
      (i : ℕ) (rows : List (Row E)) (p : Pass E)
      → IsSafe rows p
      → IsSafe rows (breaks (turns i) i p)
  breaks-IsSafe i rows p (kept, done) = (
    λ r m. elim (Bool-cases (turns i).update_ok) [
      | inl u ↦ simp u (
          update_row-IsKept i (fail_row (turns i).text) p.table r
            (fail_row-IsUpdate i (turns i).text) (kept r m))
      | inr u ↦ simp u (kept r m)
    ],
    done,
  )

  after_publish-IsSafe :
      (o : Outcome) (cfg : Config) (now i : ℕ) (rows : List (Row E)) (p on aside : Pass E)
      → (turns i).outcome ≡ o
      → IsSafe rows p
      → (IsSafe rows (published i p) → IsSafe rows on)
      → (IsSafe rows (rejects cfg now (turns i) i p) → IsSafe rows aside)
      → IsSafe rows (after_publish o cfg now (turns i) i p on aside)
  after_publish-IsSafe acknowledged cfg now i rows p on aside h s f g =
      f (published-IsSafe i rows p h s)
  after_publish-IsSafe outage cfg now i rows p on aside h s f g = breaks-IsSafe i rows p s
  after_publish-IsSafe rejected cfg now i rows p on aside h s f g =
      elim (Bool-cases (turns i).update_ok) [
        | inl u ↦ simp u (g (rejects-IsSafe cfg now i rows p h s))
        | inr u ↦ simp u s
      ]

  relay_batch-IsSafe :
      (cfg : Config) (now : ℕ) (rows xs : List (Row E)) (p : Pass E)
      → IsSafe rows p
      → IsSafe rows (relay_batch cfg now turns xs p)
  unfolding relay_batch
  relay_batch-IsSafe cfg now rows [] p s = s
  relay_batch-IsSafe cfg now rows (x ∷ xs) p s = elim (Bool-cases (turns x.id).ctx_done) [
    | inl c ↦ simp c s
    | inr c ↦ simp c (
        after_publish-IsSafe (turns x.id).outcome cfg now x.id rows p
          (relay_batch cfg now turns xs (published x.id p))
          (relay_batch cfg now turns xs (rejects cfg now (turns x.id) x.id p)) refl s
          (relay_batch-IsSafe cfg now rows xs (published x.id p))
          (relay_batch-IsSafe cfg now rows xs (rejects cfg now (turns x.id) x.id p)))
  ]

  delete_rows-IsIn :
      (done : List ℕ) (rows : List (Row E)) (r : Row E)
      → IsIn r rows
      → has_id done r.id ≡ false
      → IsIn r (delete_rows done rows)
  unfolding delete_rows
  delete_rows-IsIn done (x ∷ xs) r (inl e) h =
      let gone : has_id done x.id ≡ false = ap (λ y. has_id done y.id) (sym e) ∙ h in
      simp gone (inl e)
  delete_rows-IsIn done (x ∷ xs) r (inr m) h = elim (Bool-cases (has_id done x.id)) [
    | inl b ↦ simp b (delete_rows-IsIn done xs r m h)
    | inr b ↦ simp b (inr (delete_rows-IsIn done xs r m h))
  ]
  delete_rows-IsIn done [] r m h = absurd m

  -- What a pass keeps of a row: the row, unless the broker acknowledged its event.
  abbrev pub IsSent : List (Row E) → Row E → Type 0
  IsSent table r = ((turns r.id).outcome ≡ acknowledged) ⊎ IsKept table r

  unchanged : (rows : List (Row E)) (r : Row E) → IsIn r rows → IsSent rows r
  unchanged rows r m = inr (r, m, refl, refl, inl refl)

  end_commit-IsSent :
      (c : Commit) (before after : List (Row E)) (p : Relayed) (r : Row E)
      → IsIn r before
      → IsSent after r
      → IsSent (end_commit c before after p).0 r
  end_commit-IsSent committed before after p r m s = s
  end_commit-IsSent refused before after p r m s = unchanged before r m
  end_commit-IsSent lost before after p r m s = s

  finish_pass-IsSent :
      (db : Database) (rows : List (Row E)) (p : Pass E) (r : Row E)
      → IsIn r rows
      → IsSafe rows p
      → IsSent (finish_pass db rows p).0 r
  finish_pass-IsSent db rows p r m (kept, done) =
      elim (Bool-cases (not (length p.done == 0) && not db.delete_ok)) [
        | inl e ↦ simp e (unchanged rows r m)
        | inr e ↦ simp e (
            end_commit-IsSent db.commit rows _ _ r m (elim (Bool-cases (has_id p.done r.id)) [
              | inl d ↦ inl (done r.id d)
              | inr d ↦
                  (let (r', m', same, event, count) = kept r m in
                    let d' : has_id p.done r'.id ≡ false = ap (has_id p.done) same ∙ d in
                    inr (r', delete_rows-IsIn p.done p.table r' m' d', same, event, count))
            ]))
      ]

  start-IsSafe :
      (rows : List (Row E))
      → IsSafe rows (record { table = rows; done = []; tried = []; taken = 0; failure = none })
  unfolding has_id
  start-IsSafe rows = (λ r m. (r, m, refl, refl, inl refl), λ i h. ground arith)

  with_lock-IsSent :
      (lock : Option Bool) (cfg : Config) (now : ℕ) (db : Database) (rows : List (Row E))
      (r : Row E)
      → IsIn r rows
      → IsSent (with_lock lock cfg now db turns rows).0 r
  with_lock-IsSent none cfg now db rows r m = unchanged rows r m
  with_lock-IsSent (some false) cfg now db rows r m = unchanged rows r m
  with_lock-IsSent (some true) cfg now db rows r m =
      let batch = select_batch cfg now rows in
      let start : Pass E = record {
        table = rows;
        done = [];
        tried = [];
        taken = 0;
        failure = none;
      } in
      elim (Bool-cases (not db.select_ok)) [
        | inl e ↦ simp e (unchanged rows r m)
        | inr e ↦ elim (Bool-cases (length batch == 0)) [
          | inl z ↦ simp (e, z) (unchanged rows r m)
          | inr z ↦
              simp (e, z)
                (finish_pass-IsSent db rows (relay_batch cfg now turns batch start) r m
                  (relay_batch-IsSafe cfg now rows batch start (start-IsSafe rows)))
        ]
      ]

  -- Whatever the database and the broker answer, a pass loses no event: each row is still in the
  -- table with its event, or the broker acknowledged it; and the rejections of a row that is still
  -- there have gone up only if the broker rejected it, so that no outage makes a row dead.
  pub relay_once-keeps :
      (cfg : Config) (now : ℕ) (db : Database) (rows : List (Row E)) (r : Row E)
      → IsIn r rows
      → IsSent (relay_once cfg now db turns rows).0 r
  unfolding relay_once
  relay_once-keeps cfg now db rows r m = elim (Bool-cases (not db.begin_ok)) [
    | inl e ↦ simp e (unchanged rows r m)
    | inr e ↦ simp e (with_lock-IsSent db.lock cfg now db rows r m)
  ]
