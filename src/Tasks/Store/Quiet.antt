-- ===== src/Tasks/Store/Quiet.antt =====
-- services/tasks/internal/store/store.go: what a failed and a replaying operation leave.
use golang_basics.Base.{
  Result, ok, err, ◌≡◌, ◌≢◌, refl, ◌∙◌, inl, inr, Bool, true, false, String, arith, Bool-cases,
}
use golang_basics.Tasks.Domain.{Task}
use golang_basics.Tasks.Store.Tables.{Db}
use golang_basics.Tasks.Store as Store
use golang_basics.Tasks.Store.{
  Env, Tx, StoreError, Commit, committed, refused, lost, begin, in_tx, end_tx, create_tx, update_tx,
  delete_tx, or_replay, replayed_task, not_found, version_mismatch, key_reused, driver, replay_of,
}

-- An error of a transaction leaves the tables, unless the answer to its commit is lost.
abbrev pub Atomic : {A : Type 0} → Db → Result StoreError A × Db → Type 0
Atomic db (ok a, db') = Unit
Atomic db (err x, db') = db' ≡ db

pub in_tx-Atomic :
    {A : Type 0} (fn : Tx A) (e : Env) (db : Db) → e.commit ≢ lost → Atomic db (in_tx fn e db)
unfolding in_tx
in_tx-Atomic {A = A} fn e db kept = elim (Bool-cases (e.fails begin)) [
  | inl b ↦ simp b refl
  | inr b ↦ simp b (end_case e.commit (fn e db) kept)
]
  where
    end_case : (c : Commit) (r : Result StoreError A × Db) → c ≢ lost → Atomic db (end_tx c db r)
    end_case committed (ok a, db') k = tt
    end_case refused (ok a, db') k = refl
    end_case lost (ok a, db') k = absurd (k refl)
    end_case c (err x, db') k = refl

-- A create that replays an earlier one leaves the tables too.
abbrev pub IsQuiet : Db → Result StoreError (Task × Bool) × Db → Type 0
IsQuiet db (ok (t, true), db') = db' ≡ db
IsQuiet db (ok (t, false), db') = Unit
IsQuiet db (err x, db') = db' ≡ db

replayed_task-IsQuiet :
    (db : Db) (r : Result StoreError Task × Db) → r.1 ≡ db → IsQuiet db (replayed_task r)
replayed_task-IsQuiet db (ok t, db') h = h
replayed_task-IsQuiet db (err x, db') h = h

get-same : (id : String) (e : Env) (db : Db) → (Store.get id e db).1 ≡ db
unfolding Store.get
get-same id e db = ground arith

pub or_replay-IsQuiet :
    (e : Env) (db : Db) (r : Result StoreError Task × Db) → Atomic db r → IsQuiet db (or_replay e r)
or_replay-IsQuiet e db (ok t, db') a = tt
or_replay-IsQuiet e db (err (replay_of id), db') a =
    replayed_task-IsQuiet db (Store.get id e db') (get-same id e db' ∙ a)
or_replay-IsQuiet e db (err not_found, db') a = a
or_replay-IsQuiet e db (err version_mismatch, db') a = a
or_replay-IsQuiet e db (err key_reused, db') a = a
or_replay-IsQuiet e db (err driver, db') a = a
