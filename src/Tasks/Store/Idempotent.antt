-- ===== src/Tasks/Store/Idempotent.antt =====
-- services/tasks/internal/store/store.go: a create that is sent again under its Idempotency-Key.
use golang_basics.Base.{
  Result, ok, err, ℕ, ◌≡◌, ◌≢◌, refl, ap, ◌∙◌, inl, inr, true, false, none, some, List, String,
  str_eq, arith, Bool-cases, Option-cases, if◌then◌else◌,
}
use golang_basics.Tasks.Domain.{Task, IdempotencyKey}
use golang_basics.Tasks.Store.Tables.{Db, KeyRow, find_task, find_key}
use golang_basics.Tasks.Store.Rows.{find_key-All}
use golang_basics.Tasks.Store.Valid.{IsValid}
use golang_basics.Tasks.Store.{
  Env, Tx, Stmt, StoreError, key_reused, replay_of, Commit, committed, in_tx, end_tx, create_tx,
  create, insert_task, insert_key, encode, enqueue, begin, insert_row, claim_key, enqueue_event,
  get, or_replay, replayed_task, select_task,
}

-- Nothing fails but what the tables refuse.
abbrev pub IsHealthy : Env → Type 0
IsHealthy e = ((s : Stmt) → e.fails s ≡ false) × (e.commit ≡ committed)

create_tx-known :
    (id : String) (title : List ℕ) (k : IdempotencyKey) (e : Env) (db : Db) (row : KeyRow)
    → IsHealthy e
    → find_task id db.tasks ≡ none
    → find_key k.key db.keys ≡ some row
    → (create_tx id title (some k) e db).0
      ≡ (if str_eq row.request_hash k.hash then err (replay_of row.task_id) else err key_reused)
unfolding create_tx insert_row claim_key enqueue_event
create_tx-known id title k e db row (up, c) new known =
    ground (arith, up insert_task, up insert_key, up encode, up enqueue)

end_tx-err :
    {A : Type 0} (c : Commit) (db : Db) (r : Result StoreError A × Db) (x : StoreError)
    → r.0 ≡ err x
    → end_tx c db r ≡ (err x, db)
end_tx-err c db (ok a, db') x h = ground arith
end_tx-err c db (err y, db') x h = ap (λ z. (err z, db)) (ground arith)

in_tx-err :
    {A : Type 0} (fn : Tx A) (e : Env) (db : Db) (x : StoreError)
    → e.fails begin ≡ false
    → (fn e db).0 ≡ err x
    → in_tx fn e db ≡ (err x, db)
unfolding in_tx
in_tx-err fn e db x b h = simp b (end_tx-err e.commit db (fn e db) x h)

get-found :
    (id : String) (t : Task) (e : Env) (db : Db)
    → e.fails select_task ≡ false
    → find_task id db.tasks ≡ some t
    → get id e db ≡ (ok t, db)
unfolding get
get-found id t e db up f = ground arith

-- A create under a key that the tables have, in a database where nothing fails, changes no table:
-- it returns the task that the key names, as a replay, when the request has the same hash, and the
-- error of a reused key otherwise. The tables obey their constraints and the new id is fresh.
pub create-replay :
    (id : String) (title : List ℕ) (k : IdempotencyKey) (e : Env) (db : Db) (row : KeyRow)
    → IsHealthy e
    → IsValid db
    → find_task id db.tasks ≡ none
    → find_key k.key db.keys ≡ some row
    → (t : Task) × (find_task row.task_id db.tasks ≡ some t)
      × (create id title (some k) e db
          ≡ (if str_eq row.request_hash k.hash then ok (t, true) else err key_reused, db))
unfolding create
create-replay id title k e db row (up, c) (u, b, keys) new known =
    let ref =
      find_key-All (λ k. find_task k.task_id db.tasks ≢ none) k.key db.keys row known keys in
    let r = create_tx-known id title k e db row (up, c) new known in
    elim (Option-cases (find_task row.task_id db.tasks)) [
      | inl gone ↦ absurd (ref gone)
      | inr (t, f) ↦ elim (Bool-cases (str_eq row.request_hash k.hash)) [
        | inl same ↦ (
          t,
          f,
          ap (or_replay e) (
                in_tx-err (create_tx id title (some k)) e db (replay_of row.task_id) (up begin)
                  (r ∙ simp same refl))
              ∙ ap replayed_task (get-found row.task_id t e db (up select_task) f)
              ∙ simp same refl,
        )
        | inr other ↦ (
          t,
          f,
          ap (or_replay e) (
                in_tx-err (create_tx id title (some k)) e db key_reused (up begin)
                  (r ∙ simp other refl))
              ∙ simp other refl,
        )
      ]
    ]
