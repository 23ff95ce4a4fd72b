-- ===== src/Tasks/Store/Rules.antt =====
-- services/tasks/internal/store/store.go: what holds after a transaction, from what its function leaves.
use golang_basics.Base.{
  Result, ok, err, ℕ, ◌≡◌, refl, sym, inl, inr, Bool, true, false, Option, none, some, List, [],
  ◌∷◌, String, eq_iff, arith, Bool-cases, subst,
}
use golang_basics.Tasks.Domain.{Task, IdempotencyKey, Patch}
use golang_basics.Tasks.Store.Tables.{Db, find_task}
use golang_basics.Tasks.Store.{
  Env, Tx, Stmt, StoreError, replay_of, not_found, version_mismatch, key_reused, driver, Commit,
  committed, refused, lost, begin, update_task, delete_task, gets, run, raise_if, ◌>>=◌, end_tx,
  in_tx, matching, update_row, update_tx, delete_row, delete_tx, miss_or_mismatch, get, or_replay,
  create_tx, create, update, delete, purge_idempotency_keys,
}

-- The calls of the store that may change its tables.
pub data Call : Type 0 where
  create_call : String → List ℕ → Option IdempotencyKey → Call
  update_call : String → Patch → Option ℕ → Call
  delete_call : String → Option ℕ → Call
  purge_call : ℕ → Call

unfoldable pub call : Call → Env → Db → Db
unfolding create update delete purge_idempotency_keys
call (create_call id title idem) e db = (create id title idem e db).1
call (update_call id patch expect) e db = (update id patch expect e db).1
call (delete_call id expect) e db = (delete id expect e db).1
call (purge_call ttl) e db = (purge_idempotency_keys ttl e db).1

unfoldable pub calls : List (Call × Env) → Db → Db
unfolding call
calls [] db = db
calls ((c, e) ∷ cs) db = calls cs (call c e db)

-- `P` of the tables that a function without an error leaves.
abbrev pub Leaves : {A : Type 0} → (Db → Type 0) → Result StoreError A × Db → Type 0
Leaves P (ok a, db') = P db'
Leaves P (err x, db') = Unit

-- A task found under an id has it.
pub find_task-id : (id : String) (ts : List Task) (t : Task) → find_task id ts ≡ some t → t.id ≡ id
unfolding find_task
find_task-id id (x ∷ ts) t h = ground (arith, find_task-id id ts t, eq_iff x.id id)
find_task-id id [] t h = ground arith

matching-some :
    (expect : Option ℕ) (o : Option Task) (t : Task) → matching expect o ≡ some t → o ≡ some t
matching-some expect none t h = h
matching-some none (some old) t h = h
matching-some (some v) (some old) t h = ground arith

-- The replay after the transaction reads and changes nothing.
or_replay-db : (e : Env) (r : Result StoreError Task × Db) → (or_replay e r).1 ≡ r.1
unfolding get
or_replay-db e (ok t, db) = refl
or_replay-db e (err (replay_of id), db) = ground arith
or_replay-db e (err not_found, db) = refl
or_replay-db e (err version_mismatch, db) = refl
or_replay-db e (err key_reused, db) = refl
or_replay-db e (err driver, db) = refl

-- Each transaction leaves `P`, from what its statements leave when they meet their row.
module _ (P : Db → Type 0) where
  end_tx-Leaves :
      {A : Type 0} (c : Commit) (db : Db) (r : Result StoreError A × Db)
      → P db
      → Leaves P r
      → P (end_tx c db r).1
  end_tx-Leaves committed db (ok a, db') p w = w
  end_tx-Leaves refused db (ok a, db') p w = p
  end_tx-Leaves lost db (ok a, db') p w = w
  end_tx-Leaves c db (err x, db') p w = p

  pub in_tx-Leaves :
      {A : Type 0} (fn : Tx A) (e : Env) (db : Db) → P db → Leaves P (fn e db) → P (in_tx fn e db).1
  unfolding in_tx
  in_tx-Leaves fn e db p w = elim (Bool-cases (e.fails begin)) [
    | inl b ↦ simp b p
    | inr b ↦ simp b (end_tx-Leaves e.commit db (fn e db) p w)
  ]

  run-Leaves :
      {A : Type 0} (s : Stmt) (k : Unit → Tx A) (e : Env) (db : Db)
      → Leaves P (k tt e db)
      → Leaves P ((run s >>= k) e db)
  run-Leaves s k e db h = run_case (e.fails s)
    where
      run_case : (b : Bool) → Leaves P ((raise_if b driver >>= k) e db)
      run_case true = tt
      run_case false = h

  miss_or_mismatch-Leaves :
      (A : Type 0) (id : String) (e : Env) (db : Db) → Leaves P (miss_or_mismatch {A = A} id e db)
  unfolding miss_or_mismatch
  miss_or_mismatch-Leaves A id e db = ground arith

  pub create-Leaves :
      (id : String) (title : List ℕ) (idem : Option IdempotencyKey) (e : Env) (db : Db)
      → P db
      → Leaves P (create_tx id title idem e db)
      → P (create id title idem e db).1
  unfolding create
  create-Leaves id title idem e db p w =
      subst P (sym (or_replay-db e (in_tx (create_tx id title idem) e db)))
        (in_tx-Leaves (create_tx id title idem) e db p w)

  pub update-Leaves :
      (id : String) (patch : Patch) (expect : Option ℕ) (e : Env) (db : Db)
      → P db
      → ((old : Task)
          → find_task id db.tasks ≡ some old
          → Leaves P (update_row id patch (some old) e db))
      → P (update id patch expect e db).1
  unfolding update update_tx update_row
  update-Leaves id patch expect e db p h = in_tx-Leaves (update_tx id patch expect) e db p (
      run-Leaves update_task
        (λ u.
          gets (λ e db. matching expect (find_task id db.tasks)) >>= λ row. update_row id patch row)
        e db
        (row_case (matching expect (find_task id db.tasks))
          (matching-some expect (find_task id db.tasks))))
    where
      row_case :
          (o : Option Task)
          → ((t : Task) → o ≡ some t → find_task id db.tasks ≡ some t)
          → Leaves P (update_row id patch o e db)
      row_case none m = miss_or_mismatch-Leaves Task id e db
      row_case (some old) m = h old (m old refl)

  pub delete-Leaves :
      (id : String) (expect : Option ℕ) (e : Env) (db : Db)
      → P db
      → ((old : Task) → find_task id db.tasks ≡ some old → Leaves P (delete_row id (some old) e db))
      → P (delete id expect e db).1
  unfolding delete delete_tx delete_row
  delete-Leaves id expect e db p h = in_tx-Leaves (delete_tx id expect) e db p (
      run-Leaves delete_task
        (λ u. gets (λ e db. matching expect (find_task id db.tasks)) >>= λ row. delete_row id row) e
        db
        (row_case (matching expect (find_task id db.tasks))
          (matching-some expect (find_task id db.tasks))))
    where
      row_case :
          (o : Option Task)
          → ((t : Task) → o ≡ some t → find_task id db.tasks ≡ some t)
          → Leaves P (delete_row id o e db)
      row_case none m = miss_or_mismatch-Leaves Unit id e db
      row_case (some old) m = h old (m old refl)
