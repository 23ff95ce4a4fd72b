-- ===== src/Tests/Stale.antt =====
-- services/tasks/internal/cache and libs/valkey: a reader fills the cache with what it loaded before
-- a change.
use golang_basics.Base.{ℕ, ◌≡◌, refl, false, none, some, List, [], ◌∷◌, arith}
use golang_basics.Base.Int.{pos}
use golang_basics.Tasks.Api as Api
use golang_basics.Tasks.Api.{World, read_response}
use golang_basics.Tasks.Store as Store
use golang_basics.Tasks.Store.{StoreError}
use golang_basics.Tasks.Cache.{Entry, Settings, miss_of, tasks_cache, invalidate, to_entry}
use golang_basics.Tasks.Cache.Fresh.{get-fresh}
use golang_basics.Valkey.Server.{answered, unanswered}
use golang_basics.Valkey.Aside.{Codec, Read}
use golang_basics.Valkey.Guard.{Event, filled, happen_all}
use golang_basics.Tests.Memory.{Memory, memory, memory-IsServer}
use golang_basics.Tests.Requests.{db, healthy, outside, first_task}

-- Every text is the old entry's.
abbrev codec : Codec Entry
codec = record { encode = λ e. some "old"; decode = λ s. some (to_entry first_task) }

abbrev settings : Settings
settings = record { ttl = pos 60000000000; tombstone_ttl = pos 5000000000 }

abbrev read_at_300 : Read StoreError Entry
read_at_300 = record {
  lookup = answered;
  fill = answered;
  now = 300;
  filled_at = 310;
  int64n = λ n. 0;
  cancelled = false;
  joined = none;
}

abbrev stale_fill : List (Event × ℕ)
stale_fill = (filled "task:v2:a" "old" (pos 60000000000) answered, 200) ∷ []

abbrev empty : Memory
empty = λ k. none

abbrev after_change : World Memory
after_change = record {
  db = db;
  cache =
      happen_all memory (pos 5000000000) stale_fill
        (invalidate memory codec settings unanswered 100 "a" empty).1;
  committed = 0;
}

get-fresh_example :
    (Api.get outside
      (tasks_cache memory codec settings read_at_300)
      "a"
      (healthy "e1")
      after_change).0
    ≡ read_response outside
        (tasks_cache memory codec settings read_at_300)
        (miss_of (Store.get "a" (healthy "e1") db).0)
get-fresh_example =
    get-fresh memory codec memory-IsServer settings 5000000000 outside "a" unanswered 100 empty
      stale_fill read_at_300 (healthy "e1") after_change refl (omega arith) (λ h. ground arith)
      (omega arith, omega arith) (omega arith) refl (λ shared e. cc) refl
