-- ===== src/Tasks/Cache/Fresh.antt =====
-- services/tasks/internal/cache/cache.go under the handler of GET /tasks/{id}: no stale task after a change.
use golang_basics.Base.{
  Result, ok, err, Option, none, some, ℕ, ◌+◌, ◌≤◌, ◌<◌, ◌≡◌, ◌≢◌, refl, ap, ◌∙◌, false, List,
  String,
}
use golang_basics.Base.Int.{pos}
use golang_basics.Tasks.Domain.{Task}
use golang_basics.Tasks.Store as Store
use golang_basics.Tasks.Store.{Env, StoreError}
use golang_basics.Tasks.Api as Api
use golang_basics.Tasks.Api.{World, Outside, read_response}
use golang_basics.Tasks.Cache.{
  Entry, Settings, key, entry_of, task_of, as_store_error, miss_of, tasks_cache, get, invalidate,
}
use golang_basics.Valkey.Server.{Server, IsServer, Fate, unsent, tombstone, px}
use golang_basics.Valkey.Aside.{Codec, Read, loaded, flight, aside}
use golang_basics.Valkey.Guard.{Event, IsTimed, happen_all, aside-loads}

module _ {S : Type 0} (server : Server S) (codec : Codec Entry) where
  task_of-loaded :
      (load : Result StoreError Task)
      → task_of as_store_error (loaded server codec false (entry_of load)) ≡ miss_of load
  task_of-loaded (ok t) = refl
  task_of-loaded (err x) = refl

  flight-own :
      (o : Option (Result StoreError Entry)) (load : Result StoreError Entry)
      → ((shared : Result StoreError Entry) → o ≡ some shared → shared ≡ load)
      → flight server codec o load ≡ load
  flight-own none load h = refl
  flight-own (some shared) load h = h shared refl

  -- Once the invalidation of a changed task has reached Valkey, answered or not, and until its
  -- tombstone expires, GET /tasks/{id} answers what the database has, marked as a miss, whatever
  -- fills (of readers that loaded the task before the change, say) and invalidations come between,
  -- and however the commands to Valkey end; the request's context has not ended, and a load of
  -- another request that it shares came to what the database has, as one does that began after the
  -- change.
  pub get-fresh :
      (law : IsServer server) (t : Settings) (ttl : ℕ) (o : Outside) (id : String) (fate : Fate)
      (now : ℕ) (s : S) (evs : List (Event × ℕ)) (r : Read StoreError Entry) (e : Env) (w : World S)
      → t.tombstone_ttl ≡ pos ttl
      → 1 ≤ ttl
      → fate ≢ unsent
      → IsTimed now r.now evs
      → r.now < now + px ttl
      → r.cancelled ≡ false
      → ((shared : Result StoreError Entry)
          → r.joined ≡ some shared
          → shared ≡ entry_of (Store.get id e w.db).0)
      → w.cache ≡ happen_all server (pos ttl) evs (invalidate server codec t fate now id s).1
      → (Api.get o (tasks_cache server codec t r) id e w).0
        ≡ read_response o (tasks_cache server codec t r) (miss_of (Store.get id e w.db).0)
  unfolding Api.get tasks_cache get invalidate
  get-fresh law t ttl o id fate now s evs r e w tt_ttl p f h l c own same =
      let load = (Store.get id e w.db).0 in
      let gone : w.cache
          ≡ happen_all server (pos ttl) evs (tombstone server (key id) (pos ttl) fate now s).1 =
        same
        ∙ ap (λ z. happen_all server (pos ttl) evs (tombstone server (key id) z fate now s).1)
            tt_ttl in
      let answer =
        ap (λ c. (aside server codec (key id) t.ttl r (entry_of load) c).0) gone
        ∙ aside-loads server law codec (key id) ttl fate now s evs t.ttl r (entry_of load) p f h l
        ∙ ap (λ b. loaded server codec b (flight server codec r.joined (entry_of load))) c
        ∙ ap (loaded server codec false) (flight-own r.joined (entry_of load) own) in
      ap (λ a. read_response o (tasks_cache server codec t r) (task_of as_store_error a)) answer
      ∙ ap (read_response o (tasks_cache server codec t r)) (task_of-loaded load)
