-- ===== src/Tasks/Store/Transaction.antt =====
-- services/tasks/internal/store/store.go: a transaction over the tables, and what the database decides.
use golang_basics.Base.{
  Result, ok, err, ℕ, Bool, true, false, Option, none, some, String, if◌then◌else◌,
}
use golang_basics.Tasks.Store.Tables.{Db}

pub data Stmt : Type 0 where
  begin insert_task insert_key select_task select_page update_task delete_task : Stmt
  check_exists encode enqueue purge_keys : Stmt

-- How COMMIT ends: `lost` is a commit whose answer never arrives.
pub data Commit : Type 0 where
  committed refused lost : Commit

-- Which steps fail with an error of the driver (or of the encoder), how the commit ends, what now()
-- is, and the event id that NewID mints.
pub record Env : Type 0 where
  pub fails : Stmt → Bool
  pub commit : Commit
  pub now : ℕ
  pub event_id : String

-- `replay_of` is errReplay with the id that the closure sets; `driver` any error that wraps none of
-- the domain's.
pub data StoreError : Type 0 where
  not_found version_mismatch key_reused driver : StoreError
  replay_of : String → StoreError

abbrev pub Tx : Type 0 → Type 0
Tx A = Env → Db → Result StoreError A × Db

module _ {A : Type 0} where
  abbrev pub pure : A → Tx A
  pure a e db = (ok a, db)

  abbrev pub raise : StoreError → Tx A
  raise x e db = (err x, db)

  abbrev pub gets : (Env → Db → A) → Tx A
  gets f e db = (ok (f e db), db)

  abbrev pub or_raise : Option A → StoreError → Tx A
  or_raise none x = raise x
  or_raise (some a) x = pure a

infixl 5 ◌>>=◌ ◌>>◌
abbrev pub ◌>>=◌ : {A B : Type 0} → Tx A → (A → Tx B) → Tx B
◌>>=◌ m f e db = let (r, db') = m e db in elim r [ ok a ↦ f a e db' | err x ↦ (err x, db') ]

abbrev pub ◌>>◌ : {A B : Type 0} → Tx A → Tx B → Tx B
m >> k = m >>= λ _. k

abbrev pub raise_if : Bool → StoreError → Tx Unit
raise_if c x e db = (if c then err x else ok tt, db)

-- A step that may fail.
abbrev pub run : Stmt → Tx Unit
run s e = raise_if (e.fails s) driver e

abbrev pub modify : (Db → Db) → Tx Unit
modify f e db = (ok tt, f db)

abbrev pub is_some : {A : Type 0} → Option A → Bool
is_some none = false
is_some (some a) = true

abbrev finish : {A : Type 0} → Commit → A → Db → Db → Result StoreError A × Db
finish committed a before after = (ok a, after)
finish refused a before after = (err driver, before)
finish lost a before after = (err driver, after)

abbrev pub end_tx : {A : Type 0} → Commit → Db → Result StoreError A × Db → Result StoreError A × Db
end_tx c before (ok a, after) = finish c a before after
end_tx c before (err x, after) = (err x, before)

-- An error of the function, or of the commit, rolls back.
unfoldable pub in_tx : {A : Type 0} → Tx A → Tx A
in_tx fn e db = if e.fails begin then (err driver, db) else end_tx e.commit db (fn e db)
