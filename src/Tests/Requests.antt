-- ===== src/Tests/Requests.antt =====
-- services/tasks: titles, the tables, the pages and the handlers on a small database.
use golang_basics.Base.{
  Result, ok, err, ℕ, ◌≡◌, ◌≢◌, ◌↔◌, refl, true, false, none, some, List, [], ◌∷◌, ◌++◌, String,
  IsIn, arith, trim_space,
}
use golang_basics.Base.Int.{pos}
use golang_basics.Tests.Collation.{text_lt, text_lt-IsCollation}
use golang_basics.Tasks.Domain.{Task, Patch, IdempotencyKey, Cursor, normalize_title, normalize}
use golang_basics.Tasks.Domain as Domain
use golang_basics.Tasks.Store as Store
use golang_basics.Tasks.Store.{Env, Stmt, committed, lost, key_reused, StoreError}
use golang_basics.Tasks.Store.Tables.{Db, KeyRow, find_task, has_event, bumped}
use golang_basics.Tasks.Store.Rows.{str_ne}
use golang_basics.Tasks.Store.Rules.{Call, create_call, update_call, delete_call, purge_call, calls}
use golang_basics.Tasks.Store.Replay.{Records, calls-Records}
use golang_basics.Tasks.Store.Valid.{IsValid}
use golang_basics.Tasks.Store.Versions.{update-once}
use golang_basics.Tasks.Store.Idempotent.{create-replay}
use golang_basics.Tasks.Store.Pages.Order.{IsDesc}
use golang_basics.Tasks.Store.Pages.Walk.{walk, walk-all}
use golang_basics.Tasks.Api.Header.{etag}
use golang_basics.Tasks.Api.Match.{update-match}
use golang_basics.Tasks.Api.Told.{IsTold, serve, serve-IsTold, delete_request}
use golang_basics.Tasks.Api as Api
use golang_basics.Tasks.Api.{
  Cache, World, Outside, Response, decoded, text, task, refuse, changed_world,
}
use golang_basics.Tasks.Store.Effects.{updated_db}

abbrev milk : List ℕ
milk = b'm' ∷ b'i' ∷ b'l' ∷ b'k' ∷ []

abbrev eggs : List ℕ
eggs = b'e' ∷ b'g' ∷ b'g' ∷ b's' ∷ []

normalize_title_test : normalize_title (b' ' ∷ milk ++ (b' ' ∷ [])) ≡ ok milk
unfolding normalize_title trim_space Domain.is_valid_utf8 Domain.bad_rune
normalize_title_test = refl

abbrev pub healthy : String → Env
healthy event = record { fails = λ s. false; commit = committed; now = 700; event_id = event }

abbrev pub first_task : Task
first_task = record { id = "a"; title = milk; done = false; version = 3; created_at = 100 }

abbrev second_task : Task
second_task = record { id = "b"; title = eggs; done = true; version = 1; created_at = 200 }

abbrev key_of_a : KeyRow
key_of_a = record { key = "k"; request_hash = "h"; task_id = "a"; created_at = 100 }

abbrev pub db : Db
db = record { tasks = first_task ∷ second_task ∷ []; keys = key_of_a ∷ []; outbox = [] }

db-IsValid : IsValid db
unfolding find_task
db-IsValid = (
  ((str_ne refl, tt), (tt, tt)),
  ((omega arith, omega arith), ((omega arith, omega arith), tt)),
  (ground arith, tt),
)

abbrev finish_it : Patch
finish_it = record { title = none; done = some true }

abbrev day : List (Call × Env)
day =
    (create_call "c" milk none, healthy "e1")
    ∷ (update_call "a" finish_it (some 3), record (healthy "e2") { commit = lost })
    ∷ (delete_call "b" none, healthy "e3")
    ∷ (purge_call 10, healthy "e4")
    ∷ []

calls-Records_example : Records db (calls day db)
calls-Records_example = calls-Records day db

calls_test :
    (calls day db).tasks ≡ bumped finish_it first_task ∷ Store.Tables.new_task "c" milk 700 ∷ []
unfolding calls find_task has_event Store.Tables.set_task Store.Tables.remove_task Domain.apply
calls_test = refl

abbrev first_update : Result StoreError Task × Db
first_update = Store.update "a" finish_it (some 3) (healthy "e1") db

first_update_test : first_update.0 ≡ ok (bumped finish_it first_task)
unfolding Store.update find_task has_event Domain.apply
first_update_test = refl

update-once_example :
    (Store.update "a" finish_it (some 3) (healthy "e5") (calls day first_update.1)).0
    ≢ ok first_task
update-once_example =
    update-once "a" finish_it finish_it 3 (healthy "e1") (healthy "e5") db
      (bumped finish_it first_task) day db-IsValid.0 first_update_test
      (str_ne refl, (tt, (tt, (tt, tt)))) first_task

all_up : (event : String) (s : Stmt) → (healthy event).fails s ≡ false
all_up event s = refl

create-replay_example :
    (t : Task) × (find_task "a" db.tasks ≡ some t)
    × (Store.create "c" milk (some (record { key = "k"; hash = "h" })) (healthy "e1") db
        ≡ (ok (t, true), db))
unfolding find_task Store.Tables.find_key
create-replay_example =
    create-replay "c" milk (record { key = "k"; hash = "h" }) (healthy "e1") db key_of_a
      (all_up "e1", refl) db-IsValid refl refl

walk-all_example :
    IsDesc text_lt (walk text_lt 3 (pos 1) none (healthy "e1") db)
    × ((t : Task) → IsIn t db.tasks ↔ IsIn t (walk text_lt 3 (pos 1) none (healthy "e1") db))
walk-all_example = walk-all text_lt text_lt-IsCollation (pos 1) (healthy "e1") db db-IsValid.0 refl

abbrev pub outside : Outside
outside = record {
  text = λ s. "k";
  sha256 = λ s. "h";
  decode_cursor = λ s. none;
  id_lt = text_lt;
  timed_out = false;
}

abbrev no_cache : Cache Unit
no_cache = record {
  get = λ id loaded c. (elim loaded [ ok t ↦ ok (t, false) | err x ↦ err x ], c);
  warm = λ t c. c;
  invalidate = λ id c. (true, c);
}

abbrev world : World Unit
world = record { db = db; cache = tt; committed = 0 }

update-match_example :
    Api.update outside no_cache "a"
      (some (etag 3))
      (decoded (("title", text eggs) ∷ []))
      (healthy "e1")
      world
    ≡ (
      record {
        status = 200;
        answer = task (etag 4) (bumped (record { title = some eggs; done = none }) first_task);
      },
      changed_world outside no_cache "a" world
          (updated_db (record { title = some eggs; done = none }) first_task (healthy "e1") db),
    )
unfolding Api.decode_patch normalize find_task has_event trim_space Domain.is_valid_utf8
    Domain.bad_rune
update-match_example =
    update-match outside no_cache "a" 3 (("title", text eggs) ∷ [])
      (record { title = some eggs; done = none }) (record { title = some eggs; done = none })
      first_task (healthy "e1") world (omega arith) (omega arith) refl refl (all_up "e1", refl) refl
      (omega arith) refl

serve-IsTold_example :
    IsTold world (serve outside no_cache (delete_request "a" (some (etag 2))) (healthy "e1") world)
serve-IsTold_example =
    serve-IsTold outside no_cache (delete_request "a" (some (etag 2))) (healthy "e1") world
      (λ h. ground arith)
