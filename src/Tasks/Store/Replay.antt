-- ===== src/Tasks/Store/Replay.antt =====
-- services/tasks/internal/store: what a reader of the outbox's events knows of the table of tasks.
use mathlib.Core.List.{append-nil, append_assoc}
use golang_basics.Base.{
  ℕ, ◌≡◌, refl, sym, ap, ap₂, ◌∙◌, inl, inr, Bool, false, some, List, [], ◌∷◌, ◌++◌, String, str_eq,
  eq_iff, if◌then◌else◌, arith, Bool-cases,
}
use golang_basics.Tasks.Domain.{Task, Patch, apply}
use golang_basics.Tasks.Store.Tables.{
  TaskEvent, created, updated, deleted, Event, Db, find_task, set_task, remove_task, new_task,
  bumped,
}
use golang_basics.Tasks.Store.Effects.{Keeps, call-keeps}
use golang_basics.Tasks.Store.Rules.{
  Call, create_call, find_task-id, update_call, delete_call, purge_call, call, calls,
}
use golang_basics.Tasks.Store.{Env, created_event, updated_event, deleted_event}

-- A consumer's copy of the table: an event of a task it does not have changes nothing.
abbrev pub overwrite : String → List ℕ → Bool → ℕ → List Task → List Task
overwrite id title done version [] = []
overwrite id title done version (t ∷ ts) =
    let rest = overwrite id title done version ts in
    if str_eq t.id id
    then record t { title = title; done = done; version = version } ∷ ts
    else t ∷ rest

abbrev pub consume : TaskEvent → List Task → List Task
consume (created event id title at version) ts =
    ts ++ (record { id = id; title = title; done = false; version = version; created_at = at } ∷ [])
consume (updated event id title done version) ts = overwrite id title done version ts
consume (deleted event id version) ts = remove_task id ts

abbrev pub replay : List Event → List Task → List Task
replay [] ts = ts
replay (ev ∷ es) ts = replay es (consume ev.payload ts)

-- The events between two states of the tables, and that they explain the change.
abbrev pub Records : Db → Db → Type 0
Records db db' =
    (es : List Event) × (db'.outbox ≡ db.outbox ++ es) × (replay es db.tasks ≡ db'.tasks)

Records-refl : (db : Db) → Records db db
Records-refl db = ([], sym (append-nil db.outbox), refl)

replay-append :
    (es es' : List Event) (ts : List Task) → replay (es ++ es') ts ≡ replay es' (replay es ts)
replay-append [] es' ts = refl
replay-append (ev ∷ es) es' ts = replay-append es es' (consume ev.payload ts)

Records-trans : (a b c : Db) → Records a b → Records b c → Records a c
Records-trans a b c (es, o, r) (es', o', r') = (
  es ++ es',
  o' ∙ ap (λ l. l ++ es') o ∙ append_assoc a.outbox es es',
  replay-append es es' a.tasks ∙ ap (replay es') r ∙ r',
)

overwrite-set :
    (new : Task) (old : Task) (ts : List Task)
    → find_task new.id ts ≡ some old
    → new.created_at ≡ old.created_at
    → overwrite new.id new.title new.done new.version ts ≡ set_task new ts
unfolding find_task set_task
overwrite-set new old [] h c = refl
overwrite-set new old (x ∷ ts) h c = elim (Bool-cases (str_eq x.id new.id)) [
  | inl b ↦ simp b (
      ap₂ (λ i c. record new { id = i; created_at = c } ∷ ts) (ground (arith, eq_iff x.id new.id))
        (ground arith))
  | inr b ↦ simp b (ap (λ l. x ∷ l) (overwrite-set new old ts (ground arith) c))
]

overwrite-bumped :
    (id : String) (patch : Patch) (old : Task) (ts : List Task)
    → find_task id ts ≡ some old
    → let new = bumped patch old in
      overwrite new.id new.title new.done new.version ts ≡ set_task new ts
unfolding apply
overwrite-bumped id patch old ts f =
    overwrite-set (bumped patch old) old ts
      (ap (λ i. find_task i ts) (find_task-id id ts old f) ∙ f) refl

call-Records : (c : Call) (e : Env) (db : Db) → Records db (call c e db)
unfolding apply
call-Records c e db = call-keeps (Records db) c e db (Records-refl db) (explained c)
  where
    explained : (c : Call) → Keeps (Records db) e db c
    explained (create_call id title idem) =
        λ new free. (created_event e (new_task id title e.now) ∷ [], refl, refl)
    explained (update_call id patch expect) = λ old f small.
        (updated_event e (bumped patch old) ∷ [], refl, overwrite-bumped id patch old db.tasks f)
    explained (delete_call id expect) = λ old f. (deleted_event e id old.version ∷ [], refl, refl)
    explained (purge_call ttl) = Records-refl db

-- Whatever calls the store receives, with whatever failures on the way (a commit whose answer is
-- lost among them), the table of tasks is what a reader gets who plays the events that the calls
-- added to the outbox, in their order, over the table from before.
pub calls-Records : (cs : List (Call × Env)) (db : Db) → Records db (calls cs db)
unfolding calls
calls-Records [] db = Records-refl db
calls-Records ((c, e) ∷ cs) db =
    Records-trans db (call c e db) (calls cs (call c e db)) (call-Records c e db)
      (calls-Records cs (call c e db))
