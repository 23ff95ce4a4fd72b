-- ===== src/Tasks/Store/Effects.antt =====
-- services/tasks/internal/store/store.go: each operation leaves the tables alone or leaves those
-- written out here, so that a property of the tables is kept when these keep it.
use golang_basics.Base.{
  Result, ok, err, ℕ, ◌+◌, ◌≤◌, ◌≡◌, sym, Option, none, some, List, [], ◌∷◌, ◌++◌, String, arith,
  subst,
}
use golang_basics.Tasks.Domain.{Task, IdempotencyKey, Patch}
use golang_basics.Tasks.Store.Tables.{
  Db, KeyRow, find_task, find_key, set_task, remove_task, new_task, bumped, keys_without_task,
  young_keys, max_bigint,
}
use golang_basics.Tasks.Store.Rules.{
  Leaves, create-Leaves, update-Leaves, delete-Leaves, Call, create_call, update_call, delete_call,
  purge_call, call,
}
use golang_basics.Tasks.Store.{
  Env, StoreError, created_event, updated_event, deleted_event, key_row, create_tx, insert_row,
  claim_key, enqueue_event, update_row, delete_row, purge_idempotency_keys,
}

abbrev pub claimed : Option IdempotencyKey → String → Env → List KeyRow → List KeyRow
claimed none id e keys = keys
claimed (some k) id e keys = keys ++ (key_row k id e.now ∷ [])

abbrev pub IsFree : Option IdempotencyKey → Db → Type 0
IsFree none db = Unit
IsFree (some k) db = find_key k.key db.keys ≡ none

abbrev pub created_db : String → List ℕ → Option IdempotencyKey → Env → Db → Db
created_db id title idem e db =
    let t = new_task id title e.now in
    record {
      tasks = db.tasks ++ (t ∷ []);
      keys = claimed idem id e db.keys;
      outbox = db.outbox ++ (created_event e t ∷ []);
    }

abbrev pub updated_db : Patch → Task → Env → Db → Db
updated_db patch old e db =
    let t = bumped patch old in
    record db { tasks = set_task t db.tasks; outbox = db.outbox ++ (updated_event e t ∷ []) }

abbrev pub deleted_db : String → Task → Env → Db → Db
deleted_db id old e db = record {
  tasks = remove_task id db.tasks;
  keys = keys_without_task id db.keys;
  outbox = db.outbox ++ (deleted_event e id old.version ∷ []);
}

create_tx-Leaves :
    (id : String) (title : List ℕ) (idem : Option IdempotencyKey) (e : Env) (db : Db)
    → Leaves
        (λ d. (d ≡ created_db id title idem e db) × (find_task id db.tasks ≡ none) × IsFree idem db)
        (create_tx id title idem e db)
unfolding create_tx insert_row claim_key enqueue_event
create_tx-Leaves id title none e db = ground arith
create_tx-Leaves id title (some k) e db = ground arith

update_row-Leaves :
    (id : String) (patch : Patch) (old : Task) (e : Env) (db : Db)
    → Leaves
        (λ d. (d ≡ updated_db patch old e db) × (old.version + 1 ≤ max_bigint))
        (update_row id patch (some old) e db)
unfolding update_row enqueue_event
update_row-Leaves id patch old e db = ground arith

delete_row-Leaves :
    (id : String) (old : Task) (e : Env) (db : Db)
    → Leaves (λ d. d ≡ deleted_db id old e db) (delete_row id (some old) e db)
unfolding delete_row enqueue_event
delete_row-Leaves id old e db = ground arith

pub Leaves-map :
    {A : Type 0} (P Q : Db → Type 0) (r : Result StoreError A × Db)
    → ((d : Db) → P d → Q d)
    → Leaves P r
    → Leaves Q r
Leaves-map P Q (ok a, db) f p = f db p
Leaves-map P Q (err x, db) f p = tt

purge-keeps :
    (ttl : ℕ) (e : Env) (db : Db) (P : Db → Type 0)
    → P db
    → P (record db { keys = young_keys e.now ttl db.keys })
    → P (purge_idempotency_keys ttl e db).1
unfolding purge_idempotency_keys
purge-keeps ttl e db P p q = ground arith

-- What has to be shown that a call keeps `P`.
abbrev pub Keeps : (Db → Type 0) → Env → Db → Call → Type 0
Keeps P e db (create_call id title idem) =
    find_task id db.tasks ≡ none → IsFree idem db → P (created_db id title idem e db)
Keeps P e db (update_call id patch expect) =
    (old : Task)
    → find_task id db.tasks ≡ some old
    → old.version + 1 ≤ max_bigint
    → P (updated_db patch old e db)
Keeps P e db (delete_call id expect) =
    (old : Task) → find_task id db.tasks ≡ some old → P (deleted_db id old e db)
Keeps P e db (purge_call ttl) = P (record db { keys = young_keys e.now ttl db.keys })

pub call-keeps :
    (P : Db → Type 0) (c : Call) (e : Env) (db : Db) → P db → Keeps P e db c → P (call c e db)
unfolding call
call-keeps P (create_call id title idem) e db p k = create-Leaves P id title idem e db p (
    Leaves-map
      (λ d. (d ≡ created_db id title idem e db) × (find_task id db.tasks ≡ none) × IsFree idem db) P
      (create_tx id title idem e db) (λ d (same, new, free). subst P (sym same) (k new free))
      (create_tx-Leaves id title idem e db))
call-keeps P (update_call id patch expect) e db p k =
    update-Leaves P id patch expect e db p (λ old f.
      Leaves-map (λ d. (d ≡ updated_db patch old e db) × (old.version + 1 ≤ max_bigint)) P
        (update_row id patch (some old) e db)
        (λ d (same, small). subst P (sym same) (k old f small))
        (update_row-Leaves id patch old e db))
call-keeps P (delete_call id expect) e db p k = delete-Leaves P id expect e db p (λ old f.
    Leaves-map (λ d. d ≡ deleted_db id old e db) P (delete_row id (some old) e db)
      (λ d same. subst P (sym same) (k old f)) (delete_row-Leaves id old e db))
call-keeps P (purge_call ttl) e db p k = purge-keeps ttl e db P p k
