-- ===== src/Pgx/Migrate.antt =====
-- libs/pgx/migrate.go: runners that apply the migrations one by one.
pub mod Passes
pub mod Rollout
use golang_basics.Base.{
  Result, ok, err, ℕ, ◌<◌, ◌^◌, Bool, true, false, not, ◌&&◌, ◌||◌, Option, none, some, List, [],
  ◌∷◌, ◌++◌, String, ltb, leb, ◌==◌, if◌then◌else◌, ◌≡◌, map, reverse,
}
use golang_basics.Pgx.Files.{Migration, LoadError}

-- The statements of one pass that may fail, and how its commit ends: `lost` is a commit whose answer
-- never arrives.
pub data Stmt : Type 0 where
  begin lock ensure_table read_versions migrate record_version : Stmt

pub data Commit : Type 0 where
  committed refused lost : Commit

pub record Fate : Type 0 where
  pub fails : Stmt → Bool
  pub commit : Commit

pub data MigrateError : Type 0 where
  failed_at : List ℕ → Stmt → MigrateError
  failed_commit : List ℕ → MigrateError

-- What is committed: the migrations' SQL in the order of its execution, and schema_migrations where
-- it exists.
pub record Db : Type 0 where
  pub log : List String
  pub table : Option (List (ℕ × List ℕ))

abbrev pub rows : Option (List (ℕ × List ℕ)) → List (ℕ × List ℕ)
rows none = []
rows (some rs) = rs

unfoldable pub is_recorded : ℕ → List (ℕ × List ℕ) → Bool
is_recorded v [] = false
is_recorded v ((w, n) ∷ rs) = let rest = is_recorded v rs in w == v || rest

abbrev pub row : Migration → ℕ × List ℕ
row m = (m.version, m.name)

abbrev pub applied : Migration → Db → Db
applied m db = record { log = db.log ++ (m.sql ∷ []); table = some (rows db.table ++ (row m ∷ [])) }

abbrev pub finish : Commit → Migration → Db → Result MigrateError Bool × Db
finish committed m db = (ok true, applied m db)
finish refused m db = (err (failed_commit m.file), db)
finish lost m db = (err (failed_commit m.file), applied m db)

abbrev pub stop : Stmt → Migration → Db → Result MigrateError Bool × Db
stop s m db = (err (failed_at m.file s), db)

-- applyOne; the advisory lock makes it one step, and what it leaves uncommitted is rolled back.
unfoldable pub apply_one : Fate → Migration → Db → Result MigrateError Bool × Db
unfolding is_recorded
apply_one f m db =
    if f.fails begin
    then stop begin m db
    else if f.fails lock
    then stop lock m db
    else if f.fails ensure_table
    then stop ensure_table m db
    else if f.fails read_versions
    then stop read_versions m db
    else if is_recorded m.version (rows db.table)
    then (ok false, db)
    else if f.fails migrate
    then stop migrate m db
    else if f.fails record_version
    then stop record_version m db
    else finish f.commit m db

-- A runner of Migrate: not booted, with the migrations its loop has left, or stopped by an error; it
-- has returned nil when none are left.
pub data Runner : Type 0 where
  idle : Runner
  running : List Migration → Runner
  stopped : Runner

abbrev pub boot : Result LoadError (List Migration) → Runner
boot (ok ms) = running ms
boot (err e) = stopped

abbrev pub advance : Result MigrateError Bool → List Migration → Runner
advance (ok ran) ms = running ms
advance (err e) ms = stopped

pub record System : Type 0 where
  pub db : Db
  pub runners : ℕ → Runner

abbrev pub put : ℕ → Runner → (ℕ → Runner) → ℕ → Runner
put i r f j = if j == i then r else f j

abbrev pub boots : ℕ → Result LoadError (List Migration) → System → System
boots i loaded s = record s { runners = put i (boot loaded) s.runners }

-- The next pass of the loop of runner `i`.
unfoldable pub moves : ℕ → Fate → Migration → List Migration → System → System
unfolding apply_one
moves i f m ms s =
    let (r, db') = apply_one f m s.db in
    record { db = db'; runners = put i (advance r ms) s.runners }

-- Runners boot with the same files at any time, crash, and go on in any order.
pub data Step (loaded : Result LoadError (List Migration)) : System → System → Type 0 where
  booted : (i : ℕ) (s : System) → Step loaded s (boots i loaded s)
  crashed : (i : ℕ) (s : System) → Step loaded s (record s { runners = put i idle s.runners })
  moved :
      (i : ℕ) (f : Fate) (m : Migration) (ms : List Migration) (s : System)
      → s.runners i ≡ running (m ∷ ms)
      → Step loaded s (moves i f m ms s)

-- The database of a first boot.
abbrev pub fresh : System
fresh = record { db = record { log = []; table = none }; runners = λ i. idle }

pub data Reach (loaded : Result LoadError (List Migration)) : System → Type 0 where
  here : Reach loaded fresh
  next : {s t : System} → Reach loaded s → Step loaded s t → Reach loaded t
