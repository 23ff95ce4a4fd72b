-- ===== src/Pgx/Migrate/Passes.antt =====
-- libs/pgx/migrate.go: how one pass of a runner ends.
use golang_basics.Base.{Result, ok, err, Bool, true, false, if◌then◌else◌, ◌≡◌, if-P}
use golang_basics.Pgx.Files.{Migration}
use golang_basics.Pgx.Migrate.{
  Stmt, Fate, Commit, committed, refused, lost, finish, MigrateError, Db, rows, is_recorded,
  applied, apply_one, stop,
}

-- What a pass does: it stops with an error, it finds the version, or it applies the migration, whose
-- commit may have no answer.
pub data IsOutcome (m : Migration) (db : Db) : Result MigrateError Bool × Db → Type 0 where
  is_stopped : (e : MigrateError) → IsOutcome m db (err e, db)
  is_skipped : is_recorded m.version (rows db.table) ≡ true → IsOutcome m db (ok false, db)
  is_applied :
      (r : Result MigrateError Bool)
      → is_recorded m.version (rows db.table) ≡ false
      → IsOutcome m db (r, applied m db)

stop_if :
    {m : Migration} {db : Db} (s : Stmt) (b : Bool) {p : Result MigrateError Bool × Db}
    → IsOutcome m db p
    → IsOutcome m db (if b then stop s m db else p)
stop_if s true o = is_stopped _
stop_if s false o = o

finish-IsOutcome :
    (c : Commit) (m : Migration) (db : Db)
    → is_recorded m.version (rows db.table) ≡ false
    → IsOutcome m db (finish c m db)
finish-IsOutcome committed m db h = is_applied _ h
finish-IsOutcome refused m db h = is_stopped _
finish-IsOutcome lost m db h = is_applied _ h

unless_recorded :
    {m : Migration} {db : Db} {p : Result MigrateError Bool × Db}
    → (is_recorded m.version (rows db.table) ≡ false → IsOutcome m db p)
    → IsOutcome m db (if is_recorded m.version (rows db.table) then (ok false, db) else p)
unless_recorded {m} {db} {p} h =
    if-P (IsOutcome m db) (is_recorded m.version (rows db.table)) (ok false, db) p is_skipped h

pub apply_one-IsOutcome : (f : Fate) (m : Migration) (db : Db) → IsOutcome m db (apply_one f m db)
unfolding apply_one
apply_one-IsOutcome f m db = stop_if _ (f.fails _) (
    stop_if _ (f.fails _) (
      stop_if _ (f.fails _) (
        stop_if _ (f.fails _) (
          unless_recorded (λ h.
            stop_if _ (f.fails _) (stop_if _ (f.fails _) (finish-IsOutcome f.commit m db h)))))))
