-- ===== src/Tasks/Api.antt =====
-- services/tasks/internal/api/api.go: the handlers, over the store and an interface of the cache.
-- A decoded body, the header's values and the query's are the request's; the text of a problem is
-- its status and code.
pub mod Header
mod Wire
pub mod Etag
pub mod Match
pub mod Told
unfoldable pub use Wire.*
use golang_basics.Base.{
  Result, ok, err, ℕ, suc, Bool, true, false, not, ◌&&◌, ◌||◌, Option, none, some, List, [], ◌∷◌,
  String, str_eq, length, ltb, map, if◌then◌else◌,
}
use golang_basics.Base.Int.{ℤ, pos, ltb_ℤ}
use golang_basics.Tasks.Domain.{
  Task, Cursor, Page, PageRequest, IdempotencyKey, Patch, DomainError, empty_patch, normalize_title,
  normalize, default_page_size, max_page_size,
}
use golang_basics.Tasks.Store.Tables.{Db}
use golang_basics.Tasks.Store as Store
use golang_basics.Tasks.Store.{
  Env, Tx, StoreError, not_found, version_mismatch, key_reused, driver, replay_of,
}
use golang_basics.Tasks.Store.Pages as Pages
use golang_basics.Tasks.Api.Header.{HeaderError, etag, if_match, idempotency_key, parse_int}

module _ {C : Type 0} (o : Outside) (cache : Cache C) where
  abbrev pub Handler : Type 0
  Handler = Env → World C → Response × World C

  abbrev pub answer_with : ℕ → Code → Handler
  answer_with s c e w = (refuse s c, w)

  abbrev pub created_world : Task → World C → Db → World C
  created_world t w db = record {
    db = db;
    cache = cache.warm t w.cache;
    committed = suc w.committed;
  }

  abbrev pub changed_world : String → World C → Db → World C
  changed_world id w db = record {
    db = db;
    cache = (cache.invalidate id w.cache).1;
    committed = suc w.committed;
  }

  abbrev pub created_response : World C → Result StoreError (Task × Bool) × Db → Response × World C
  created_response w (ok (t, true), db) =
      (record { status = 200; answer = replayed (etag t.version) t }, record w { db = db })
  created_response w (ok (t, false), db) =
      (record { status = 201; answer = located (etag t.version) t }, created_world t w db)
  created_response w (err key_reused, db) =
      (refuse 422 idempotency_key_reused, record w { db = db })
  created_response w (err x, db) = (failed o, record w { db = db })

  abbrev pub create_with : String → List ℕ → Result HeaderError (Option IdempotencyKey) → Handler
  create_with id title (err x) e w = (refuse 400 invalid_idempotency_key, w)
  create_with id title (ok idem) e w = created_response w (Store.create id title idem e w.db)

  abbrev pub create_titled : String → Option (List ℕ) → Result DomainError (List ℕ) → Handler
  create_titled id key (err x) = answer_with 400 invalid_title
  create_titled id key (ok title) = create_with id title (idempotency_key o.text o.sha256 key title)

  -- `uuid.NewString` is an argument, as are the key's header and the decoded title.
  unfoldable pub create : String → Option (List ℕ) → Body (List ℕ) → Handler
  unfolding normalize_title etag idempotency_key
  create id key (undecodable s) = answer_with s invalid_body
  create id key (decoded title) = create_titled id key (normalize_title title)

  abbrev pub read_response : Result StoreError (Task × Bool) → Response
  read_response (ok (t, hit)) = record { status = 200; answer = read hit (etag t.version) t }
  read_response (err not_found) = refuse 404 task_not_found
  read_response (err x) = failed o

  unfoldable pub get : String → Handler
  unfolding etag
  get id e w =
      let (r, c) = cache.get id (Store.get id e w.db).0 w.cache in
      (read_response r, record w { cache = c })

  abbrev pub listed : Result StoreError Page → Response
  listed (ok p) = record { status = 200; answer = page p.tasks p.next }
  listed (err x) = failed o

  abbrev pub list_page : PageRequest → Handler
  list_page req e w = (listed (Pages.list o.id_lt req e w.db).0, w)

  abbrev pub list_decoded : ℤ → Option Cursor → Handler
  list_decoded limit none = answer_with 400 invalid_cursor
  list_decoded limit (some c) = list_page (record { limit = limit; cursor = some c })

  abbrev pub list_from : Option (List ℕ) → Option ℤ → Handler
  list_from cursor none = answer_with 400 invalid_limit
  list_from none (some limit) = list_page (record { limit = limit; cursor = none })
  list_from (some v) (some limit) = list_decoded limit (o.decode_cursor v)

  abbrev pub list_checked : List (String × List (List ℕ)) → Option Code → Handler
  list_checked q (some c) = answer_with 400 c
  list_checked q none = list_from (sent "cursor" q) (query_limit (sent "limit" q))

  unfoldable pub list : List (String × List (List ℕ)) → Handler
  unfolding check_query sent query_limit
  list q = list_checked q (check_query q)

  abbrev pub updated_response : String → World C → Result StoreError Task × Db → Response × World C
  updated_response id w (ok t, db) =
      (record { status = 200; answer = task (etag t.version) t }, changed_world id w db)
  updated_response id w (err x, db) = (change_error o x, record w { db = db })

  abbrev pub update_normalized : String → Option ℕ → Result DomainError Patch → Handler
  update_normalized id expect (err empty_patch) e w = (refuse 400 empty_patch_code, w)
  update_normalized id expect (err x) e w = (refuse 400 invalid_title, w)
  update_normalized id expect (ok p) e w = updated_response id w (Store.update id p expect e w.db)

  abbrev pub update_decoded : String → Option ℕ → Result PatchError Patch → Handler
  update_decoded id expect (err x) = answer_with 400 invalid_patch
  update_decoded id expect (ok p) = update_normalized id expect (normalize p)

  abbrev pub update_matched :
      String → Body (List (String × Raw)) → Result HeaderError (Option ℕ) → Handler
  update_matched id body (err x) = answer_with 400 invalid_if_match
  update_matched id (undecodable s) (ok expect) = answer_with s invalid_body
  update_matched id (decoded fields) (ok expect) =
      update_decoded id expect (decode_patch fields (record { title = none; done = none }))

  unfoldable pub update : String → Option (List ℕ) → Body (List (String × Raw)) → Handler
  unfolding if_match decode_patch normalize etag
  update id tag body = update_matched id body (if_match tag)

  abbrev pub deleted_response : String → World C → Result StoreError Unit × Db → Response × World C
  deleted_response id w (ok u, db) =
      (record { status = 204; answer = no_content }, changed_world id w db)
  deleted_response id w (err x, db) = (change_error o x, record w { db = db })

  abbrev pub delete_matched : String → Result HeaderError (Option ℕ) → Handler
  delete_matched id (err x) e w = (refuse 400 invalid_if_match, w)
  delete_matched id (ok expect) e w = deleted_response id w (Store.delete id expect e w.db)

  unfoldable pub delete : String → Option (List ℕ) → Handler
  unfolding if_match
  delete id tag = delete_matched id (if_match tag)
