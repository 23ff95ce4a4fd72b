-- ===== src/Tasks/Api/Told.antt =====
-- services/tasks/internal/api/api.go: what an answer tells of the tables.
use golang_basics.Base.{
  Result, ok, err, ℕ, suc, ◌≡◌, ◌≢◌, refl, inl, inr, Bool, true, false, Option, none, some, List,
  String, Bool-cases,
}
use golang_basics.Base.Int.{ℤ}
use golang_basics.Tasks.Domain.{
  Task, Patch, Page, Cursor, IdempotencyKey, normalize_title, normalize, empty_patch, DomainError,
  blank, not_utf8, too_long, has_nul, has_control,
}
use golang_basics.Tasks.Store.Tables.{Db}
use golang_basics.Tasks.Store as Store
use golang_basics.Tasks.Store.{
  Env, Tx, StoreError, Commit, committed, refused, lost, begin, in_tx, end_tx, create_tx, update_tx,
  delete_tx, or_replay, replayed_task, not_found, version_mismatch, key_reused, driver, replay_of,
}
use golang_basics.Tasks.Store.Quiet.{Atomic, in_tx-Atomic, IsQuiet, or_replay-IsQuiet}
use golang_basics.Tasks.Api.Header.{HeaderError, if_match, idempotency_key}
use golang_basics.Tasks.Api.{
  create_with, create_titled, PatchError, decode_patch, delete_matched, read_response, listed,
  list_from, list_decoded, list_checked, check_query, Code, Cache, World, Answer, problem, task,
  replayed, located, read, page, no_content, Response, Outside, Body, decoded, undecodable, Raw,
  failed, change_error, create, get, list, update, delete, created_response, updated_response,
  deleted_response, update_matched, update_decoded, update_normalized,
}

module _ {C : Type 0} where
  abbrev IsSame : World C → World C → Type 0
  IsSame w w' = (w'.db ≡ w.db) × (w'.committed ≡ w.committed)

  -- By the answer: no change, or a change of which the relay is told once.
  abbrev pub Told : World C → World C → Answer → Type 0
  Told w w' (problem c) = IsSame w w'
  Told w w' (replayed tag t) = IsSame w w'
  Told w w' (read hit tag t) = IsSame w w'
  Told w w' (page ts next) = IsSame w w'
  Told w w' (task tag t) = w'.committed ≡ suc w.committed
  Told w w' (located tag t) = w'.committed ≡ suc w.committed
  Told w w' no_content = w'.committed ≡ suc w.committed

  abbrev pub IsTold : World C → Response × World C → Type 0
  IsTold w (r, w') = Told w w' r.answer

  module _ (o : Outside) (cache : Cache C) where
    failed-IsTold : (w : World C) (db : Db) → db ≡ w.db → IsTold w (failed o, record w { db = db })
    failed-IsTold w db q = elim (Bool-cases o.timed_out) [
      | inl b ↦ simp b (q, refl)
      | inr b ↦ simp b (q, refl)
    ]

    created_response-IsTold :
        (w : World C) (r : Result StoreError (Task × Bool) × Db)
        → IsQuiet w.db r
        → IsTold w (created_response o cache w r)
    created_response-IsTold w (ok (t, true), db) q = (q, refl)
    created_response-IsTold w (ok (t, false), db) q = refl
    created_response-IsTold w (err key_reused, db) q = (q, refl)
    created_response-IsTold w (err not_found, db) q = failed-IsTold w db q
    created_response-IsTold w (err version_mismatch, db) q = failed-IsTold w db q
    created_response-IsTold w (err driver, db) q = failed-IsTold w db q
    created_response-IsTold w (err (replay_of id), db) q = failed-IsTold w db q

    change_error-IsTold :
        (x : StoreError) (w : World C) (db : Db)
        → db ≡ w.db
        → IsTold w (change_error o x, record w { db = db })
    change_error-IsTold not_found w db q = (q, refl)
    change_error-IsTold version_mismatch w db q = (q, refl)
    change_error-IsTold key_reused w db q = failed-IsTold w db q
    change_error-IsTold driver w db q = failed-IsTold w db q
    change_error-IsTold (replay_of id) w db q = failed-IsTold w db q

    updated_response-IsTold :
        (id : String) (w : World C) (r : Result StoreError Task × Db)
        → Atomic w.db r
        → IsTold w (updated_response o cache id w r)
    updated_response-IsTold id w (ok t, db) a = refl
    updated_response-IsTold id w (err x, db) a = change_error-IsTold x w db a

    deleted_response-IsTold :
        (id : String) (w : World C) (r : Result StoreError Unit × Db)
        → Atomic w.db r
        → IsTold w (deleted_response o cache id w r)
    deleted_response-IsTold id w (ok u, db) a = refl
    deleted_response-IsTold id w (err x, db) a = change_error-IsTold x w db a

    create-IsTold :
        (id : String) (key : Option (List ℕ)) (body : Body (List ℕ)) (e : Env) (w : World C)
        → e.commit ≢ lost
        → IsTold w (create o cache id key body e w)
    unfolding create Store.create
    create-IsTold id key (undecodable s) e w kept = (refl, refl)
    create-IsTold id key (decoded title) e w kept = titled (normalize_title title)
      where
        with_key :
            (t : List ℕ) (k : Result HeaderError (Option IdempotencyKey))
            → IsTold w (create_with o cache id t k e w)
        with_key t (err x) = (refl, refl)
        with_key t (ok idem) = created_response-IsTold w (Store.create id t idem e w.db) (
            or_replay-IsQuiet e w.db (in_tx (create_tx id t idem) e w.db)
              (in_tx-Atomic (create_tx id t idem) e w.db kept))

        titled : (t : Result DomainError (List ℕ)) → IsTold w (create_titled o cache id key t e w)
        titled (err x) = (refl, refl)
        titled (ok t) = with_key t (idempotency_key o.text o.sha256 key t)

    update-IsTold :
        (id : String) (tag : Option (List ℕ)) (body : Body (List (String × Raw))) (e : Env)
        (w : World C)
        → e.commit ≢ lost
        → IsTold w (update o cache id tag body e w)
    unfolding update Store.update
    update-IsTold id tag body e w kept = matched body (if_match tag)
      where
        normalized :
            (expect : Option ℕ) (p : Result DomainError Patch)
            → IsTold w (update_normalized o cache id expect p e w)
        normalized expect (ok p) =
            updated_response-IsTold id w (Store.update id p expect e w.db)
              (in_tx-Atomic (update_tx id p expect) e w.db kept)
        normalized expect (err empty_patch) = (refl, refl)
        normalized expect (err blank) = (refl, refl)
        normalized expect (err not_utf8) = (refl, refl)
        normalized expect (err too_long) = (refl, refl)
        normalized expect (err has_nul) = (refl, refl)
        normalized expect (err has_control) = (refl, refl)

        with_patch :
            (expect : Option ℕ) (p : Result PatchError Patch)
            → IsTold w (update_decoded o cache id expect p e w)
        with_patch expect (err x) = (refl, refl)
        with_patch expect (ok p) = normalized expect (normalize p)

        matched :
            (body : Body (List (String × Raw))) (m : Result HeaderError (Option ℕ))
            → IsTold w (update_matched o cache id body m e w)
        matched body (err x) = (refl, refl)
        matched (undecodable s) (ok expect) = (refl, refl)
        matched (decoded fields) (ok expect) =
            with_patch expect (decode_patch fields (record { title = none; done = none }))

    delete-IsTold :
        (id : String) (tag : Option (List ℕ)) (e : Env) (w : World C)
        → e.commit ≢ lost
        → IsTold w (delete o cache id tag e w)
    unfolding delete Store.delete
    delete-IsTold id tag e w kept = matched (if_match tag)
      where
        matched : (m : Result HeaderError (Option ℕ)) → IsTold w (delete_matched o cache id m e w)
        matched (err x) = (refl, refl)
        matched (ok expect) =
            deleted_response-IsTold id w (Store.delete id expect e w.db)
              (in_tx-Atomic (delete_tx id expect) e w.db kept)

    read_response-Told :
        (w : World C) (c : C) (r : Result StoreError (Task × Bool))
        → IsTold w (read_response o cache r, record w { cache = c })
    read_response-Told w c (ok (t, hit)) = (refl, refl)
    read_response-Told w c (err not_found) = (refl, refl)
    read_response-Told w c (err version_mismatch) = failed-IsTold (record w { cache = c }) w.db refl
    read_response-Told w c (err key_reused) = failed-IsTold (record w { cache = c }) w.db refl
    read_response-Told w c (err driver) = failed-IsTold (record w { cache = c }) w.db refl
    read_response-Told w c (err (replay_of id)) = failed-IsTold (record w { cache = c }) w.db refl

    list-IsTold :
        (q : List (String × List (List ℕ))) (e : Env) (w : World C) → IsTold w (list o cache q e w)
    unfolding list
    list-IsTold q e w = checked (check_query q)
      where
        paged : (p : Result StoreError Page) → IsTold w (listed o cache p, w)
        paged (ok p) = (refl, refl)
        paged (err x) = failed-IsTold w w.db refl

        from :
            (cursor : Option (List ℕ)) (limit : Option ℤ)
            → IsTold w (list_from o cache cursor limit e w)
        from cursor none = (refl, refl)
        from none (some limit) = paged _
        from (some v) (some limit) = at_cursor (o.decode_cursor v)
          where
            at_cursor : (c : Option Cursor) → IsTold w (list_decoded o cache limit c e w)
            at_cursor none = (refl, refl)
            at_cursor (some c) = paged _

        checked : (c : Option Code) → IsTold w (list_checked o cache q c e w)
        checked (some c) = (refl, refl)
        checked none = from _ _

    -- A request to the API.
    pub data Request : Type 0 where
      create_request : String → Option (List ℕ) → Body (List ℕ) → Request
      get_request : String → Request
      list_request : List (String × List (List ℕ)) → Request
      update_request : String → Option (List ℕ) → Body (List (String × Raw)) → Request
      delete_request : String → Option (List ℕ) → Request

    abbrev pub serve : Request → Env → World C → Response × World C
    serve (create_request id key body) = create o cache id key body
    serve (get_request id) = get o cache id
    serve (list_request q) = list o cache q
    serve (update_request id tag body) = update o cache id tag body
    serve (delete_request id tag) = delete o cache id tag

    -- Whatever is requested and whatever fails, but the answer to a commit, the answer is true to the
    -- tables: a problem, a read and a replay leave them as they were and tell the relay nothing; a
    -- created, updated or deleted task is announced to the relay, once.
    pub serve-IsTold :
        (r : Request) (e : Env) (w : World C) → e.commit ≢ lost → IsTold w (serve r e w)
    unfolding get
    serve-IsTold (create_request id key body) e w kept = create-IsTold id key body e w kept
    serve-IsTold (get_request id) e w kept =
        let (r, c) = cache.get id (Store.get id e w.db).0 w.cache in read_response-Told w c r
    serve-IsTold (list_request q) e w kept = list-IsTold q e w
    serve-IsTold (update_request id tag body) e w kept = update-IsTold id tag body e w kept
    serve-IsTold (delete_request id tag) e w kept = delete-IsTold id tag e w kept
