-- ===== src/Tasks/Api/Match.antt =====
-- services/tasks/internal/api/api.go: an update on the condition that If-Match names.
use golang_basics.Base.{
  ok, err, ℕ, ◌+◌, ◌^◌, ◌≤◌, ◌<◌, ◌≡◌, refl, ap, ◌∙◌, Bool, true, false, none, some, List, String,
  arith, if◌then◌else◌, ◌==◌,
}
use golang_basics.Tasks.Domain.{Task, Patch, normalize, apply}
use golang_basics.Tasks.Store.Tables.{Db, find_task, bumped, has_event, max_bigint}
use golang_basics.Tasks.Store as Store
use golang_basics.Tasks.Store.{
  Env, StoreError, version_mismatch, committed, begin, update_task, encode, enqueue, check_exists,
  in_tx, end_tx, update_tx, update_row, miss_or_mismatch, enqueue_event, matching,
}
use golang_basics.Tasks.Store.Effects.{updated_db}
use golang_basics.Tasks.Store.Idempotent.{IsHealthy}
use golang_basics.Tasks.Api.Header.{etag}
use golang_basics.Tasks.Api.Etag.{if_match-etag}
use golang_basics.Tasks.Api.{
  Cache, World, Outside, decoded, Raw, refuse, version_mismatch_code, task, changed_world, update,
  decode_patch, updated_response, update_matched, update_decoded, update_normalized,
}

update_tx-healthy :
    (id : String) (p : Patch) (v : ℕ) (t : Task) (e : Env) (db : Db)
    → IsHealthy e
    → find_task id db.tasks ≡ some t
    → t.version < max_bigint
    → has_event e.event_id db.outbox ≡ false
    → update_tx id p (some v) e db ≡ (
        if t.version == v
        then (ok (bumped p t), updated_db p t e db)
        else (err version_mismatch, db))
unfolding update_tx update_row enqueue_event miss_or_mismatch
update_tx-healthy id p v t e db (up, c) f small fresh =
    ground (arith, up update_task, up check_exists, up encode, up enqueue)

end_tx-committed :
    {A : Type 0} (b : Bool) (db db' : Db) (a : A) (x : StoreError)
    → end_tx committed db (if b then (ok a, db') else (err x, db))
      ≡ (if b then (ok a, db') else (err x, db))
end_tx-committed true db db' a x = refl
end_tx-committed false db db' a x = refl

update-healthy :
    (id : String) (p : Patch) (v : ℕ) (t : Task) (e : Env) (db : Db)
    → IsHealthy e
    → find_task id db.tasks ≡ some t
    → t.version < max_bigint
    → has_event e.event_id db.outbox ≡ false
    → Store.update id p (some v) e db ≡ (
        if t.version == v
        then (ok (bumped p t), updated_db p t e db)
        else (err version_mismatch, db))
unfolding Store.update in_tx
update-healthy id p v t e db (up, c) f small fresh =
    let r = update_tx-healthy id p v t e db (up, c) f small fresh in
    simp (up begin, c)
      (ap (end_tx committed db) r
        ∙ end_tx-committed (t.version == v) db (updated_db p t e db) (bumped p t) version_mismatch)

updated_response-if :
    {C : Type 0} (o : Outside) (cache : Cache C) (id : String) (w : World C) (b : Bool) (t : Task)
    (db : Db)
    → updated_response o cache id w (if b then (ok t, db) else (err version_mismatch, w.db)) ≡ (
        if b
        then (
          record { status = 200; answer = task (etag t.version) t },
          changed_world o cache id w db,
        )
        else (refuse 412 version_mismatch_code, w))
updated_response-if o cache id w true t db = refl
updated_response-if o cache id w false t db = refl

-- The ETag of any version below 10^18, sent back in If-Match with a patch that is in order, when
-- nothing fails and the minted event id is new: if the task is still at that version the answer is
-- 200 with the patched task and the ETag of the next version, the tables hold it with its event, the
-- cache is invalidated and the relay woken; if not, it is 412 and nothing has changed.
pub update-match :
    {C : Type 0} (o : Outside) (cache : Cache C) (id : String) (v : ℕ)
    (fields : List (String × Raw)) (given p : Patch) (t : Task) (e : Env) (w : World C)
    → 1 ≤ v
    → v < 10 ^ 18
    → decode_patch fields (record { title = none; done = none }) ≡ ok given
    → normalize given ≡ ok p
    → IsHealthy e
    → find_task id w.db.tasks ≡ some t
    → t.version < max_bigint
    → has_event e.event_id w.db.outbox ≡ false
    → update o cache id (some (etag v)) (decoded fields) e w ≡ (
        if t.version == v
        then (
          record { status = 200; answer = task (etag (t.version + 1)) (bumped p t) },
          changed_world o cache id w (updated_db p t e w.db),
        )
        else (refuse 412 version_mismatch_code, w))
unfolding update apply
update-match o cache id v fields given p t e w lo hi d n up f small fresh =
    ap (λ m. update_matched o cache id (decoded fields) m e w) (if_match-etag v lo hi)
    ∙ ap (λ g. update_decoded o cache id (some v) g e w) d
    ∙ ap (λ g. update_normalized o cache id (some v) g e w) n
    ∙ ap (updated_response o cache id w) (update-healthy id p v t e w.db up f small fresh)
    ∙ updated_response-if o cache id w (t.version == v) (bumped p t) (updated_db p t e w.db)
