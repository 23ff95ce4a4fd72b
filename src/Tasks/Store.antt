-- ===== src/Tasks/Store.antt =====
-- services/tasks/internal/store/store.go and the Enqueue of internal/outbox/outbox.go: the
-- operations, each one transaction. What the database does beyond its tables is an `Env`.
pub mod Tables
mod Transaction
pub mod Rows
pub mod Rules
pub mod Effects
pub mod Valid
pub mod Replay
pub mod Versions
pub mod Quiet
pub mod Pages
pub mod Idempotent
unfoldable pub use Transaction.*
use golang_basics.Base.{
  Result, ok, err, ℕ, ◌+◌, ◌-◌, Bool, true, false, not, Option, none, some, List, [], ◌∷◌, ◌++◌,
  String, str_eq, length, ltb, if◌then◌else◌,
}
use golang_basics.Tasks.Domain.{Task, IdempotencyKey, Patch}
use golang_basics.Tasks.Store.Tables.{
  TaskEvent, created, updated, deleted, Event, KeyRow, Db, find_task, set_task, remove_task,
  find_key, keys_without_task, young_keys, has_event, max_bigint, is_expected, new_task, bumped,
}

unfoldable pub enqueue_event : Event → Tx Unit
enqueue_event ev = do
  run enqueue
  taken ← gets (λ e db. has_event ev.id db.outbox)
  raise_if taken driver
  modify (λ db. record db { outbox = db.outbox ++ (ev ∷ []) })

abbrev pub type_task_created : String
type_task_created = "task.created"

abbrev pub type_task_updated : String
type_task_updated = "task.updated"

abbrev pub type_task_deleted : String
type_task_deleted = "task.deleted"

abbrev pub created_event : Env → Task → Event
created_event e t = record {
  id = e.event_id;
  aggregate_id = t.id;
  event_type = type_task_created;
  payload = created e.event_id t.id t.title t.created_at t.version;
}

abbrev pub updated_event : Env → Task → Event
updated_event e t = record {
  id = e.event_id;
  aggregate_id = t.id;
  event_type = type_task_updated;
  payload = updated e.event_id t.id t.title t.done t.version;
}

abbrev pub deleted_event : Env → String → ℕ → Event
deleted_event e id version = record {
  id = e.event_id;
  aggregate_id = id;
  event_type = type_task_deleted;
  payload = deleted e.event_id id version;
}

-- INSERT INTO tasks … RETURNING
unfoldable pub insert_row : String → List ℕ → Tx Task
insert_row id title = do
  run insert_task
  old ← gets (λ e db. find_task id db.tasks)
  raise_if (is_some old) driver
  t ← gets (λ e db. new_task id title e.now)
  modify (λ db. record db { tasks = db.tasks ++ (t ∷ []) })
  pure t

abbrev pub key_row : IdempotencyKey → String → ℕ → KeyRow
key_row k id now = record { key = k.key; request_hash = k.hash; task_id = id; created_at = now }

-- What follows the INSERT of the key: the row that was there decides.
abbrev after_key : IdempotencyKey → String → Option KeyRow → Tx Unit
after_key k id (some row) =
    if not (str_eq row.request_hash k.hash) then raise key_reused else raise (replay_of row.task_id)
after_key k id none = do
  now ← gets (λ e db. e.now)
  modify (λ db. record db { keys = db.keys ++ (key_row k id now ∷ []) })

unfoldable pub claim_key : Option IdempotencyKey → String → Tx Unit
claim_key none id = pure tt
claim_key (some k) id = do
  run insert_key
  row ← gets (λ e db. find_key k.key db.keys)
  after_key k id row

unfoldable pub create_tx : String → List ℕ → Option IdempotencyKey → Tx Task
unfolding insert_row claim_key enqueue_event
create_tx id title idem = do
  t ← insert_row id title
  claim_key idem t.id
  run encode
  ev ← gets (λ e db. created_event e t)
  enqueue_event ev
  pure t

unfoldable pub get : String → Tx Task
get id = do run select_task; o ← gets (λ e db. find_task id db.tasks); or_raise o not_found

abbrev pub replayed_task : Result StoreError Task × Db → Result StoreError (Task × Bool) × Db
replayed_task (ok t, db) = (ok (t, true), db)
replayed_task (err x, db) = (err x, db)

abbrev pub or_replay : Env → Result StoreError Task × Db → Result StoreError (Task × Bool) × Db
or_replay e (ok t, db) = (ok (t, false), db)
or_replay e (err (replay_of id), db) = replayed_task (get id e db)
or_replay e (err x, db) = (err x, db)

-- The task, and whether an earlier request made it.
unfoldable pub create : String → List ℕ → Option IdempotencyKey → Tx (Task × Bool)
unfolding in_tx create_tx get
create id title idem e db = or_replay e (in_tx (create_tx id title idem) e db)

unfoldable pub miss_or_mismatch : {A : Type 0} → String → Tx A
miss_or_mismatch id = do
  run check_exists
  o ← gets (λ e db. find_task id db.tasks)
  raise_if (is_some o) version_mismatch
  raise not_found

-- The row a conditional statement meets.
abbrev pub matching : Option ℕ → Option Task → Option Task
matching expect none = none
matching expect (some t) = if is_expected expect t then some t else none

-- What follows the UPDATE: no row, or the row with its version raised, which BIGINT bounds.
unfoldable pub update_row : String → Patch → Option Task → Tx Task
unfolding miss_or_mismatch enqueue_event
update_row id patch none = miss_or_mismatch id
update_row id patch (some old) = do
  raise_if (ltb max_bigint (old.version + 1)) driver
  t ← pure (bumped patch old)
  modify (λ db. record db { tasks = set_task t db.tasks })
  run encode
  ev ← gets (λ e db. updated_event e t)
  enqueue_event ev
  pure t

unfoldable pub update_tx : String → Patch → Option ℕ → Tx Task
unfolding update_row
update_tx id patch expect = do
  run update_task
  row ← gets (λ e db. matching expect (find_task id db.tasks))
  update_row id patch row

unfoldable pub update : String → Patch → Option ℕ → Tx Task
unfolding in_tx update_tx
update id patch expect = in_tx (update_tx id patch expect)

unfoldable pub delete_row : String → Option Task → Tx Unit
unfolding miss_or_mismatch enqueue_event
delete_row id none = miss_or_mismatch id
delete_row id (some old) = do
  modify (λ db. record db { tasks = remove_task id db.tasks; keys = keys_without_task id db.keys })
  run encode
  ev ← gets (λ e db. deleted_event e id old.version)
  enqueue_event ev

unfoldable pub delete_tx : String → Option ℕ → Tx Unit
unfolding delete_row
delete_tx id expect = do
  run delete_task
  row ← gets (λ e db. matching expect (find_task id db.tasks))
  delete_row id row

unfoldable pub delete : String → Option ℕ → Tx Unit
unfolding in_tx delete_tx
delete id expect = in_tx (delete_tx id expect)

unfoldable pub purge_idempotency_keys : ℕ → Tx ℕ
purge_idempotency_keys ttl = do
  run purge_keys
  gone ← gets (λ e db. length db.keys - length (young_keys e.now ttl db.keys))
  now ← gets (λ e db. e.now)
  modify (λ db. record db { keys = young_keys now ttl db.keys })
  pure gone
