-- ===== src/Tasks/Store/Tables.antt =====
-- services/tasks/migrations/001_init.sql and the statements of internal/store: the tables as lists
-- of rows, and what one statement does to them. `id` and `key` are the primary keys, so a statement
-- that names one meets one row at most.
use golang_basics.Base.{
  ℕ, ◌+◌, ◌-◌, ◌^◌, Bool, true, false, ◌||◌, Option, none, some, List, [], ◌∷◌, String, str_eq, ltb,
  ◌==◌, if◌then◌else◌,
}
use golang_basics.Tasks.Domain.{Task, Patch, apply}

-- The payloads of libs/contracts/events, each with its event id and its task id; `task.created`
-- says nothing of `done`, which is false then.
pub data TaskEvent : Type 0 where
  created : String → String → List ℕ → ℕ → ℕ → TaskEvent
  updated : String → String → List ℕ → Bool → ℕ → TaskEvent
  deleted : String → String → ℕ → TaskEvent

-- A row of the outbox, without the columns of the relay and the trace headers.
pub record Event : Type 0 where
  pub id : String
  pub aggregate_id : String
  pub event_type : String
  pub payload : TaskEvent

pub record KeyRow : Type 0 where
  pub key : String
  pub request_hash : String
  pub task_id : String
  pub created_at : ℕ

pub record Db : Type 0 where
  pub tasks : List Task
  pub keys : List KeyRow
  pub outbox : List Event

unfoldable pub find_task : String → List Task → Option Task
find_task id [] = none
find_task id (t ∷ ts) = let rest = find_task id ts in if str_eq t.id id then some t else rest

unfoldable pub set_task : Task → List Task → List Task
set_task new [] = []
set_task new (t ∷ ts) =
    let rest = set_task new ts in if str_eq t.id new.id then new ∷ ts else t ∷ rest

unfoldable pub remove_task : String → List Task → List Task
remove_task id [] = []
remove_task id (t ∷ ts) = let rest = remove_task id ts in if str_eq t.id id then ts else t ∷ rest

unfoldable pub find_key : String → List KeyRow → Option KeyRow
find_key key [] = none
find_key key (k ∷ ks) = let rest = find_key key ks in if str_eq k.key key then some k else rest

-- ON DELETE CASCADE.
unfoldable pub keys_without_task : String → List KeyRow → List KeyRow
keys_without_task id [] = []
keys_without_task id (k ∷ ks) =
    let rest = keys_without_task id ks in if str_eq k.task_id id then rest else k ∷ rest

-- `created_at < now() - ttl`: the keys that stay, and how many go.
unfoldable pub young_keys : ℕ → ℕ → List KeyRow → List KeyRow
young_keys now ttl [] = []
young_keys now ttl (k ∷ ks) =
    let rest = young_keys now ttl ks in if ltb (k.created_at + ttl) now then rest else k ∷ rest

unfoldable pub has_event : String → List Event → Bool
has_event id [] = false
has_event id (e ∷ es) = str_eq e.id id || has_event id es

-- BIGINT holds no more than this.
abbrev pub max_bigint : ℕ
max_bigint = 2 ^ 63 - 1

-- `$4::bigint IS NULL OR version = $4`
abbrev pub is_expected : Option ℕ → Task → Bool
is_expected none t = true
is_expected (some v) t = t.version == v

abbrev pub new_task : String → List ℕ → ℕ → Task
new_task id title now = record {
  id = id;
  title = title;
  done = false;
  version = 1;
  created_at = now;
}

-- The row that UPDATE writes.
abbrev pub bumped : Patch → Task → Task
bumped p t = record (apply p t) { version = t.version + 1 }
