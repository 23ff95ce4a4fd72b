-- ===== src/Tests/Schema.antt =====
-- Two replicas that boot together and migrate.
use golang_basics.Base.{
  Result, ok, err, ℕ, false, Option, some, List, [], ◌∷◌, ◌++◌, String, runes, map, ◌≡◌, refl,
}
use golang_basics.Pgx.Files.{
  Entry, Migration, LoadError, bad_name, bad_version, shared_version, load_migrations,
}
use golang_basics.Pgx.Migrate.{
  Fate, Commit, committed, lost, rows, row, running, System, boots, moves, booted, moved, fresh,
  Reach, here, next,
}
use golang_basics.Pgx.Files.Versions.{Ascending}
use golang_basics.Pgx.Migrate.Rollout.{sql_of, migrate-rollout}

abbrev read : List ℕ → Option String
read f = some "create"

abbrev file : String → Entry
file s = record { name = runes s; is_dir = false }

abbrev dir : Option (List Entry)
dir = some (file "002_keys.sql" ∷ file "README.md" ∷ file "001_init.sql" ∷ [])

abbrev init : Migration
init = record { version = 1; name = runes "init"; file = runes "001_init.sql"; sql = "create" }

abbrev keys : Migration
keys = record { version = 2; name = runes "keys"; file = runes "002_keys.sql"; sql = "create" }

load_test : load_migrations read dir ≡ ok (init ∷ keys ∷ [])
unfolding load_migrations
load_test = refl

name_test :
    load_migrations read (some (file "1-init.sql" ∷ [])) ≡ err (bad_name (runes "1-init.sql"))
unfolding load_migrations
name_test = refl

shared_test :
    load_migrations read (some (file "01_a.sql" ∷ file "1_b.sql" ∷ []))
    ≡ err (shared_version (runes "01_a.sql") (runes "1_b.sql") 1)
unfolding load_migrations
shared_test = refl

version_test :
    load_migrations read (some (file "9223372036854775808_a.sql" ∷ []))
    ≡ err (bad_version (runes "9223372036854775808_a.sql"))
unfolding load_migrations
version_test = refl

abbrev fine : Commit → Fate
fine c = record { fails = λ s. false; commit = c }

-- Both boot; the commit of the first loses its answer, the second goes on.
abbrev loaded : Result LoadError (List Migration)
loaded = load_migrations read dir

abbrev both : System
both = boots 1 loaded (boots 0 loaded fresh)

abbrev first : System
first = moves 0 (fine lost) init (keys ∷ []) both

abbrev second : System
second = moves 1 (fine committed) init (keys ∷ []) first

abbrev third : System
third = moves 1 (fine committed) keys [] second

reached : Reach loaded third
unfolding load_migrations moves
reached =
    next
      (next
        (next (next (next here (booted 0 fresh)) (booted 1 (boots 0 loaded fresh)))
          (moved 0 (fine lost) init (keys ∷ []) both refl))
        (moved 1 (fine committed) init (keys ∷ []) first refl))
      (moved 1 (fine committed) keys [] second refl)

log_test : third.db.log ≡ ("create" ∷ "create" ∷ [])
unfolding moves
log_test = refl

migrate-rollout_example :
    Ascending (init ∷ keys ∷ [])
    × ((done : List Migration) × (rest : List Migration) × ((init ∷ keys ∷ []) ≡ done ++ rest)
        × (third.db.log ≡ map sql_of done)
        × (rows third.db.table ≡ map row done))
    × ((i : ℕ) → third.runners i ≡ running [] → third.db.log ≡ map sql_of (init ∷ keys ∷ []))
migrate-rollout_example = migrate-rollout read dir (init ∷ keys ∷ []) load_test reached
