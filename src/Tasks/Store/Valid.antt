-- ===== src/Tasks/Store/Valid.antt =====
-- services/tasks/migrations/001_init.sql and internal/store: the constraints of the tables.
use golang_basics.Base.{
  ◌≤◌, ◌≢◌, sym, Option, none, some, List, [], ◌∷◌, ◌++◌, String, str_eq, All, All-append, arith,
  inl, inr, Bool-cases, eq_iff, eq_refl, subst,
}
use golang_basics.Tasks.Domain.{Task, IdempotencyKey, apply}
use golang_basics.Tasks.Store.{Env, key_row}
use golang_basics.Tasks.Store.Tables.{
  Db, KeyRow, find_task, set_task, remove_task, new_task, bumped, keys_without_task, max_bigint,
}
use golang_basics.Tasks.Store.Rows.{
  str_ne, set_task-All, remove_task-All, keys_without_task-All, young_keys-All, find_task-append,
  find_task-set, find_task-remove, find_task-none,
}
use golang_basics.Tasks.Store.Rules.{
  Call, create_call, update_call, delete_call, purge_call, call, calls,
}
use golang_basics.Tasks.Store.Effects.{Keeps, call-keeps, claimed}

-- The primary key of the tasks.
abbrev pub IsUnique : List Task → Type 0
IsUnique [] = Unit
IsUnique (t ∷ ts) = All (λ u. u.id ≢ t.id) ts × IsUnique ts

abbrev IsBigint : Task → Type 0
IsBigint t = (1 ≤ t.version) × (t.version ≤ max_bigint)

-- The reference of a key to its task.
abbrev IsKnown : List Task → KeyRow → Type 0
IsKnown ts k = find_task k.task_id ts ≢ none

-- The tables' constraints: task ids are unique, versions are from 1 to the largest BIGINT, and the
-- task of every key is there.
abbrev pub IsValid : Db → Type 0
IsValid db = IsUnique db.tasks × All IsBigint db.tasks × All (IsKnown db.tasks) db.keys

pub All-map :
    {A : Type 0} (P Q : A → Type 0) (xs : List A) → ((x : A) → P x → Q x) → All P xs → All Q xs
All-map P Q [] f u = tt
All-map P Q (x ∷ xs) f (p, ps) = (f x p, All-map P Q xs f ps)

append-IsUnique :
    (new : Task) (ts : List Task)
    → All (λ u. u.id ≢ new.id) ts
    → IsUnique ts
    → IsUnique (ts ++ (new ∷ []))
append-IsUnique new [] h u = (tt, tt)
append-IsUnique new (x ∷ ts) (h, hs) (x1, xs) = (
  All-append (λ u. u.id ≢ x.id) ts (new ∷ []) x1 ((λ e. h (sym e)), tt),
  append-IsUnique new ts hs xs,
)

set_task-IsUnique : (new : Task) (ts : List Task) → IsUnique ts → IsUnique (set_task new ts)
unfolding set_task
set_task-IsUnique new [] u = tt
set_task-IsUnique new (x ∷ ts) (h, u) = elim (Bool-cases (str_eq x.id new.id)) [
  | inl b ↦ simp b (subst (λ i. All (λ u. u.id ≢ i) ts) ((eq_iff x.id new.id).0 b) h, u)
  | inr b ↦
      simp b (
        set_task-All (λ u. u.id ≢ x.id) new ts (λ e. str_ne b (sym e)) h,
        set_task-IsUnique new ts u,
      )
]

remove_task-IsUnique : (id : String) (ts : List Task) → IsUnique ts → IsUnique (remove_task id ts)
unfolding remove_task
remove_task-IsUnique id [] u = tt
remove_task-IsUnique id (x ∷ ts) (h, u) = elim (Bool-cases (str_eq x.id id)) [
  | inl b ↦ simp b u
  | inr b ↦ simp b (remove_task-All (λ u. u.id ≢ x.id) id ts h, remove_task-IsUnique id ts u)
]

-- The row that a create adds is found.
find_task-new : (new : Task) (ts : List Task) → find_task new.id (ts ++ (new ∷ [])) ≢ none
unfolding find_task
find_task-new new [] h = ground (arith, eq_refl new.id)
find_task-new new (x ∷ ts) h = elim (Bool-cases (str_eq x.id new.id)) [
  | inl b ↦ ground arith
  | inr b ↦ find_task-new new ts (ground arith)
]

claimed-IsKnown :
    (idem : Option IdempotencyKey) (id : String) (e : Env) (ts : List Task) (ks : List KeyRow)
    → find_task id ts ≢ none
    → All (IsKnown ts) ks
    → All (IsKnown ts) (claimed idem id e ks)
claimed-IsKnown none id e ts ks h u = u
claimed-IsKnown (some k) id e ts ks h u =
    All-append (IsKnown ts) ks (key_row k id e.now ∷ []) u (h, tt)

call-IsValid : (c : Call) (e : Env) (db : Db) → IsValid db → IsValid (call c e db)
unfolding apply
call-IsValid c e db (u, b, k) = call-keeps IsValid c e db (u, b, k) (kept c)
  where
    kept : (c : Call) → Keeps IsValid e db c
    kept (create_call id title idem) = λ new free.
        let t = new_task id title e.now in
        (
          append-IsUnique t db.tasks (find_task-none id db.tasks new) u,
          All-append IsBigint db.tasks (t ∷ []) b ((omega arith, omega arith), tt),
          claimed-IsKnown idem id e (db.tasks ++ (t ∷ [])) db.keys (find_task-new t db.tasks) (
              All-map (IsKnown db.tasks) (IsKnown (db.tasks ++ (t ∷ []))) db.keys
                (λ k h. find_task-append k.task_id db.tasks (t ∷ []) h) k),
        )
    kept (update_call id patch expect) = λ old f small.
        let t = bumped patch old in
        (
          set_task-IsUnique t db.tasks u,
          set_task-All IsBigint t db.tasks (omega arith, small) b,
          All-map (IsKnown db.tasks) (IsKnown (set_task t db.tasks)) db.keys
              (λ k h. find_task-set k.task_id t db.tasks h) k,
        )
    kept (delete_call id expect) = λ old f. (
      remove_task-IsUnique id db.tasks u,
      remove_task-All IsBigint id db.tasks b,
      All-map (λ k. IsKnown db.tasks k × (k.task_id ≢ id)) (IsKnown (remove_task id db.tasks))
          (keys_without_task id db.keys) (λ k (h, ne). find_task-remove k.task_id id db.tasks ne h)
          (keys_without_task-All (IsKnown db.tasks) id db.keys k),
    )
    kept (purge_call ttl) = (u, b, young_keys-All (IsKnown db.tasks) e.now ttl db.keys k)

-- From tables that obey their constraints, every sequence of calls, with whatever failures, leaves
-- tables that do: the ids are unique, the versions from 1 to the largest BIGINT, and no key names a
-- task that is not there.
calls-IsValid : (cs : List (Call × Env)) (db : Db) → IsValid db → IsValid (calls cs db)
unfolding calls
calls-IsValid [] db v = v
calls-IsValid ((c, e) ∷ cs) db v = calls-IsValid cs (call c e db) (call-IsValid c e db v)
