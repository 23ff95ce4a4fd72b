-- ===== src/Tasks/Cache.antt =====
-- services/tasks/internal/cache/cache.go: the cache of the tasks over libs/valkey, and None.
pub mod Fresh
use Prim.Native.String.{◌++◌}
use golang_basics.Base.{Result, ok, err, ℕ, Bool, true, false, Option, none, some, List, String}
use golang_basics.Base.Int.{ℤ}
use golang_basics.Tasks.Domain.{Task}
use golang_basics.Tasks.Store.{StoreError}
use golang_basics.Tasks.Api.{Cache}
use golang_basics.Valkey.Server.{Server, Fate, set_nx, tombstone}
use golang_basics.Valkey.Aside.{Codec, Read, AsideError, load_error, canceled, aside, jitter}

-- The prefix names the cached shape.
abbrev pub key : String → String
key id = "task:v2:" ++ id

-- The entry has the fields of the task.
pub record Entry : Type 0 where
  pub id : String
  pub title : List ℕ
  pub done : Bool
  pub version : ℕ
  pub created_at : ℕ

abbrev pub to_entry : Task → Entry
to_entry t = record {
  id = t.id;
  title = t.title;
  done = t.done;
  version = t.version;
  created_at = t.created_at;
}

abbrev to_task : Entry → Task
to_task e = record {
  id = e.id;
  title = e.title;
  done = e.done;
  version = e.version;
  created_at = e.created_at;
}

pub record Settings : Type 0 where
  pub ttl : ℤ
  pub tombstone_ttl : ℤ

abbrev pub entry_of : Result StoreError Task → Result StoreError Entry
entry_of (ok t) = ok (to_entry t)
entry_of (err x) = err x

abbrev pub task_of :
    (AsideError StoreError → StoreError)
    → Result (AsideError StoreError) (Entry × Bool)
    → Result StoreError (Task × Bool)
task_of as_store (ok (e, hit)) = ok (to_task e, hit)
task_of as_store (err x) = err (as_store x)

-- The handlers treat the end of a context as they treat an error of the driver.
abbrev pub as_store_error : AsideError StoreError → StoreError
as_store_error (load_error x) = x
as_store_error canceled = StoreError.driver

module _ {S : Type 0} (server : Server S) (codec : Codec Entry) (t : Settings) where
  unfoldable pub get :
      Read StoreError Entry
      → String
      → Result StoreError Task
      → S
      → Result StoreError (Task × Bool) × S
  get r id load s =
      let (found, s') = aside server codec (key id) t.ttl r (entry_of load) s in
      (task_of as_store_error found, s')

  abbrev warm_with : Option String → Read StoreError Entry → String → S → S
  warm_with none r id s = s
  warm_with (some b) r id s =
      (set_nx server (key id) b (jitter r.int64n t.ttl) r.fill r.filled_at s).1

  unfoldable pub warm : Read StoreError Entry → Task → S → S
  warm r task s = warm_with (codec.encode (to_entry task)) r task.id s

  unfoldable pub invalidate : Fate → ℕ → String → S → Bool × S
  invalidate fate now id s = tombstone server (key id) t.tombstone_ttl fate now s

  -- The cache as one request of the API meets it.
  unfoldable pub tasks_cache : Read StoreError Entry → Cache S
  unfolding get warm invalidate
  tasks_cache r = record { get = get r; warm = warm r; invalidate = invalidate r.fill r.now }

-- Without Valkey every read is a miss, and nothing is cached.
abbrev pub miss_of : Result StoreError Task → Result StoreError (Task × Bool)
miss_of (ok t) = ok (t, false)
miss_of (err x) = err x

abbrev pub no_cache : Cache Unit
no_cache = record {
  get = λ id load s. (miss_of load, s);
  warm = λ task s. s;
  invalidate = λ id s. (true, s);
}
