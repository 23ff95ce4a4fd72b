-- ===== src/Tasks/Store/Versions.antt =====
-- services/tasks/internal/store/store.go: the version of a task as the token of its updates.
use golang_basics.Base.{
  Result, ok, err, ℕ, ◌+◌, ◌<◌, ◌≡◌, ◌≢◌, refl, sym, ap, ◌∙◌, inl, inr, some, List, [], ◌∷◌, String,
  str_eq, eq_iff, arith, All, All-append, Bool-cases, Option-cases, subst,
}
use golang_basics.Tasks.Domain.{Task, Patch, apply}
use golang_basics.Tasks.Store.Tables.{Db, find_task, set_task, new_task, bumped}
use golang_basics.Tasks.Store.Valid.{IsUnique}
use golang_basics.Tasks.Store.Rows.{str_ne, find_task-All, set_task-All, remove_task-All}
use golang_basics.Tasks.Store.Effects.{Keeps, call-keeps}
use golang_basics.Tasks.Store.Rules.{
  Call, create_call, update_call, delete_call, purge_call, call, calls, find_task-id,
}
use golang_basics.Tasks.Store.{
  Env, Tx, StoreError, Commit, committed, refused, lost, begin, end_tx, in_tx, update_row,
  update_tx, miss_or_mismatch, update, enqueue_event,
}

abbrev AboveAt : String → ℕ → Task → Type 0
AboveAt id v t = t.id ≡ id → v < t.version

lt_suc : {v n : ℕ} → v < n → v < n + 1
lt_suc h = omega (arith, h)

-- No row of the id is at the version or below it.
abbrev IsPast : String → ℕ → Db → Type 0
IsPast id v db = All (AboveAt id v) db.tasks

-- The call does not create a task with the id: the API mints a new id for each.
abbrev IsOther : String → Call → Type 0
IsOther id (create_call new title idem) = new ≢ id
IsOther id (update_call i patch expect) = Unit
IsOther id (delete_call i expect) = Unit
IsOther id (purge_call ttl) = Unit

call-IsPast :
    (id : String) (v : ℕ) (c : Call) (e : Env) (db : Db)
    → IsOther id c
    → IsPast id v db
    → IsPast id v (call c e db)
unfolding apply
call-IsPast id v c e db o p = call-keeps (IsPast id v) c e db p (kept c o)
  where
    kept : (c : Call) → IsOther id c → Keeps (IsPast id v) e db c
    kept (create_call new title idem) o = λ free unused.
        All-append (AboveAt id v) db.tasks (new_task new title e.now ∷ []) p
          ((λ same. absurd (o same)), tt)
    kept (update_call i patch expect) o = λ old f small.
        set_task-All (AboveAt id v) (bumped patch old) db.tasks
          (λ same. lt_suc (find_task-All (AboveAt id v) i db.tasks old f p same)) p
    kept (delete_call i expect) o = λ old f. remove_task-All (AboveAt id v) i db.tasks p
    kept (purge_call ttl) o = p

calls-IsPast :
    (id : String) (v : ℕ) (cs : List (Call × Env)) (db : Db)
    → All (λ ce. IsOther id ce.0) cs
    → IsPast id v db
    → IsPast id v (calls cs db)
unfolding calls
calls-IsPast id v [] db o p = p
calls-IsPast id v ((c, e) ∷ cs) db (o, os) p =
    calls-IsPast id v cs (call c e db) os (call-IsPast id v c e db o p)

update_tx-matched :
    (id : String) (patch : Patch) (v : ℕ) (e : Env) (db : Db) (t : Task)
    → (update_tx id patch (some v) e db).0 ≡ ok t
    → (old : Task) × (find_task id db.tasks ≡ some old)
      × (old.version ≡ v)
      × (t ≡ bumped patch old)
      × ((update_tx id patch (some v) e db).1.tasks ≡ set_task t db.tasks)
unfolding update_tx update_row miss_or_mismatch enqueue_event
update_tx-matched id patch v e db t h = elim (Option-cases (find_task id db.tasks)) [
  | inl absent ↦ ground arith
  | inr (old, f) ↦ (old, f, ground arith, ground arith, ground arith)
]

-- A transaction without an error is its function's.
in_tx-ok :
    {A : Type 0} (fn : Tx A) (e : Env) (db : Db) (a : A)
    → (in_tx fn e db).0 ≡ ok a
    → ((fn e db).0 ≡ ok a) × ((in_tx fn e db).1 ≡ (fn e db).1)
unfolding in_tx
in_tx-ok {A = A} fn e db a h = elim (Bool-cases (e.fails begin)) [
  | inl b ↦ ground arith
  | inr b ↦ simp b (end_case e.commit (fn e db) (ground arith))
]
  where
    end_case :
        (c : Commit) (r : Result StoreError A × Db)
        → (end_tx c db r).0 ≡ ok a
        → (r.0 ≡ ok a) × ((end_tx c db r).1 ≡ r.1)
    end_case committed (ok x, db') g = (g, refl)
    end_case refused (ok x, db') g = ground arith
    end_case lost (ok x, db') g = ground arith
    end_case c (err x, db') g = ground arith

update-matched :
    (id : String) (patch : Patch) (v : ℕ) (e : Env) (db : Db) (t : Task)
    → (update id patch (some v) e db).0 ≡ ok t
    → (old : Task) × (find_task id db.tasks ≡ some old)
      × (old.version ≡ v)
      × (t ≡ bumped patch old)
      × ((update id patch (some v) e db).1.tasks ≡ set_task t db.tasks)
unfolding update
update-matched id patch v e db t h =
    let (r, s) = in_tx-ok (update_tx id patch (some v)) e db t h in
    let (old, f, same, made, left) = update_tx-matched id patch v e db t r in
    (old, f, same, made, ap (λ d. d.tasks) s ∙ left)

set_task-AboveAt :
    (new old : Task) (ts : List Task)
    → IsUnique ts
    → find_task new.id ts ≡ some old
    → old.version < new.version
    → All (AboveAt new.id old.version) (set_task new ts)
unfolding find_task set_task
set_task-AboveAt new old [] u f l = ground arith
set_task-AboveAt new old (x ∷ ts) (n, u) f l = elim (Bool-cases (str_eq x.id new.id)) [
  | inl b ↦ simp b (λ same. l, others ts n ((eq_iff x.id new.id).0 b))
  | inr b ↦ simp b (λ same. absurd (str_ne b same), set_task-AboveAt new old ts u (ground arith) l)
]
  where
    others :
        (us : List Task)
        → All (λ u. u.id ≢ x.id) us
        → x.id ≡ new.id
        → All (AboveAt new.id old.version) us
    others [] h same = tt
    others (y ∷ us) (h, hs) same = ((λ e. absurd (h (e ∙ sym same))), others us hs same)

update-IsPast :
    (id : String) (patch : Patch) (v : ℕ) (e : Env) (db : Db) (t : Task)
    → IsUnique db.tasks
    → (update id patch (some v) e db).0 ≡ ok t
    → IsPast id v (update id patch (some v) e db).1
unfolding apply
update-IsPast id patch v e db t u h =
    let (old, f, same, made, left) = update-matched id patch v e db t h in
    let own : t.id ≡ id = ap (λ t. t.id) made ∙ find_task-id id db.tasks old f in
    let raised : t.version ≡ old.version + 1 = ap (λ t. t.version) made in
    subst (λ ts. All (AboveAt id v) ts) (sym left)
      (subst (λ i. All (AboveAt i v) (set_task t db.tasks)) own
        (subst (λ n. All (AboveAt t.id n) (set_task t db.tasks)) same
          (set_task-AboveAt t old db.tasks u (ap (λ i. find_task i db.tasks) own ∙ f)
            (omega (arith, raised)))))

-- When an update that names a version has succeeded, no later update that names the same version of
-- the task succeeds, whatever calls come between that do not create a task with the same id: of two
-- writers that read one version, one is refused. The ids of the tasks are unique at the start.
pub update-once :
    (id : String) (patch patch' : Patch) (v : ℕ) (e e' : Env) (db : Db) (t : Task)
    (between : List (Call × Env))
    → IsUnique db.tasks
    → (update id patch (some v) e db).0 ≡ ok t
    → All (λ ce. IsOther id ce.0) between
    → (t' : Task)
    → (update id patch' (some v) e' (calls between (update id patch (some v) e db).1)).0 ≢ ok t'
update-once id patch patch' v e e' db t between u h o t' h' =
    let mid = calls between (update id patch (some v) e db).1 in
    let (old, f, same, made, left) = update-matched id patch' v e' mid t' h' in
    let above =
      find_task-All (AboveAt id v) id mid.tasks old f
        (calls-IsPast id v between (update id patch (some v) e db).1 o
          (update-IsPast id patch v e db t u h))
        (find_task-id id mid.tasks old f) in
    omega (arith, same, above)
