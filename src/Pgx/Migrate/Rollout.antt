-- ===== src/Pgx/Migrate/Rollout.antt =====
-- libs/pgx/migrate.go: what runners that boot, fail and crash in any order make of the database.
use mathlib.Core.List.{append_assoc, append-nil, map-append}
use golang_basics.Base.{
  Result, ok, err, ℕ, ◌<◌, Bool, true, false, Option, List, [], ◌∷◌, ◌++◌, String, map, ◌==◌, ◌≡◌,
  refl, ap, sym, subst, ◌∙◌, if-P, All-right, arith,
}
use golang_basics.Pgx.Files.{Entry, Migration, load_migrations}
use golang_basics.Pgx.Migrate.{
  MigrateError, Db, rows, row, is_recorded, apply_one, Runner, idle, running, stopped, advance, put,
  System, moves, Step, booted, crashed, moved, Reach, here, next,
}
use golang_basics.Pgx.Files.Versions.{Ascending, load_migrations-Ascending}
use golang_basics.Pgx.Migrate.Passes.{
  IsOutcome, is_stopped, is_skipped, is_applied, apply_one-IsOutcome,
}

abbrev pub sql_of : Migration → String
sql_of m = m.sql

-- How far a runner is: it has passed over some of the migrations that are applied.
unfoldable IsBehind : List Migration → List Migration → Runner → Type 0
IsBehind done rest (running todo) =
    (seen : List Migration) × (skipped : List Migration) × (done ≡ seen ++ skipped)
    × (todo ≡ skipped ++ rest)
IsBehind done rest _ = Unit

record IsValid (ms : List Migration) (s : System) : Type 0 where
  applied_so_far : List Migration
  rest : List Migration
  split : ms ≡ applied_so_far ++ rest
  logged : s.db.log ≡ map sql_of applied_so_far
  recorded : rows s.db.table ≡ map row applied_so_far
  behind : (i : ℕ) → IsBehind applied_so_far rest (s.runners i)

put-IsBehind :
    (done rest : List Migration) (f : ℕ → Runner) (i : ℕ) (r : Runner)
    → ((j : ℕ) → IsBehind done rest (f j))
    → IsBehind done rest r
    → (j : ℕ) → IsBehind done rest (put i r f j)
put-IsBehind done rest f i r h k j = if-P (IsBehind done rest) (j == i) r (f j) (λ e. k) (λ e. h j)

is_recorded-found :
    (m : Migration) (seen skipped : List Migration)
    → is_recorded m.version (map row (seen ++ (m ∷ skipped))) ≡ true
unfolding is_recorded
is_recorded-found m [] skipped = ground arith
is_recorded-found m (n ∷ seen) skipped = let ih = is_recorded-found m seen skipped in ground arith

is_recorded-below :
    (m : Migration) (done rest : List Migration)
    → Ascending (done ++ (m ∷ rest))
    → is_recorded m.version (map row done) ≡ false
unfolding is_recorded Ascending
is_recorded-below m [] rest a = refl
is_recorded-below m (n ∷ done) rest (b, a) =
    (let ih = is_recorded-below m done rest a in
      let (above, _) = All-right (λ k. n.version < k.version) done (m ∷ rest) b in ground arith)

abbrev tail : List Migration → List Migration
tail [] = []
tail (m ∷ ms) = ms

abbrev head_version : List Migration → ℕ
head_version [] = 0
head_version (m ∷ ms) = m.version

-- A migration that is found lies behind; one that is not is the next to apply.
skipped-IsBehind :
    (done rest todo : List Migration) (m : Migration)
    → Ascending (done ++ rest)
    → is_recorded m.version (map row done) ≡ true
    → IsBehind done rest (running (m ∷ todo))
    → IsBehind done rest (running todo)
unfolding IsBehind
skipped-IsBehind done rest todo m a h (seen, [], d, e) =
    (let f = is_recorded-below m done todo (subst (λ r. Ascending (done ++ r)) (sym e) a) in
      ground arith)
skipped-IsBehind done rest todo m a h (seen, k ∷ skipped, d, e) =
    (seen ++ (k ∷ []), skipped, d ∙ sym (append_assoc seen (k ∷ []) skipped), ap tail e)

applied-next :
    (done rest todo : List Migration) (m : Migration)
    → is_recorded m.version (map row done) ≡ false
    → IsBehind done rest (running (m ∷ todo))
    → rest ≡ (m ∷ todo)
unfolding IsBehind
applied-next done rest todo m h (seen, [], d, e) = sym e
applied-next done rest todo m h (seen, k ∷ skipped, d, e) =
    (let found = is_recorded-found k seen skipped in
      let same : m.version ≡ k.version = ap head_version e in
      let wrong : is_recorded m.version (map row done) ≡ true = rw (same, d) found in ground arith)

shift-IsBehind :
    (done todo : List Migration) (m : Migration) (r : Runner)
    → IsBehind done (m ∷ todo) r
    → IsBehind (done ++ (m ∷ [])) todo r
unfolding IsBehind
shift-IsBehind done todo m idle b = tt
shift-IsBehind done todo m stopped b = tt
shift-IsBehind done todo m (running left) (seen, skipped, d, e) = (
  seen,
  skipped ++ (m ∷ []),
  ap (λ l. l ++ (m ∷ [])) d ∙ append_assoc seen skipped (m ∷ []),
  e ∙ sym (append_assoc skipped (m ∷ []) todo),
)

advance-IsBehind :
    (done todo : List Migration) (r : Result MigrateError Bool)
    → IsBehind done todo (advance r todo)
unfolding IsBehind
advance-IsBehind done todo (ok ran) = (done, [], sym (append-nil done), refl)
advance-IsBehind done todo (err e) = tt

IsBehind-at :
    {ms : List Migration} {s : System} {r : Runner} (v : IsValid ms s) (i : ℕ)
    → s.runners i ≡ r
    → IsBehind v.applied_so_far v.rest r
IsBehind-at v i e = subst (IsBehind v.applied_so_far v.rest) e (v.behind i)

pass-IsValid :
    (ms : List Migration) (s : System) (i : ℕ) (m : Migration) (todo : List Migration)
    (p : Result MigrateError Bool × Db)
    → Ascending ms
    → IsValid ms s
    → s.runners i ≡ running (m ∷ todo)
    → IsOutcome m s.db p
    → IsValid ms (record { db = p.1; runners = put i (advance p.0 todo) s.runners })
unfolding IsBehind
pass-IsValid ms s i m todo p a v e (is_stopped x) = record {
  applied_so_far = v.applied_so_far;
  rest = v.rest;
  split = v.split;
  logged = v.logged;
  recorded = v.recorded;
  behind = put-IsBehind v.applied_so_far v.rest s.runners i stopped v.behind tt;
}
pass-IsValid ms s i m todo p a v e (is_skipped h) = record {
  applied_so_far = v.applied_so_far;
  rest = v.rest;
  split = v.split;
  logged = v.logged;
  recorded = v.recorded;
  behind = put-IsBehind v.applied_so_far v.rest s.runners i (running todo) v.behind (
      skipped-IsBehind v.applied_so_far v.rest todo m (subst Ascending v.split a)
        (rw (sym v.recorded) h) (IsBehind-at v i e));
}
pass-IsValid ms s i m todo p a v e (is_applied r h) =
    (let next_is : v.rest ≡ (m ∷ todo) =
        applied-next v.applied_so_far v.rest todo m (rw (sym v.recorded) h) (IsBehind-at v i e) in
      record {
        applied_so_far = v.applied_so_far ++ (m ∷ []);
        rest = todo;
        split =
            v.split
            ∙ ap (λ l. v.applied_so_far ++ l) next_is
            ∙ sym (append_assoc v.applied_so_far (m ∷ []) todo);
        logged = rw (map-append sql_of v.applied_so_far (m ∷ []), v.logged) refl;
        recorded = rw (map-append row v.applied_so_far (m ∷ []), v.recorded) refl;
        behind =
            put-IsBehind (v.applied_so_far ++ (m ∷ [])) todo s.runners i (advance r todo)
              (λ j.
                shift-IsBehind v.applied_so_far todo m (s.runners j)
                  (subst (λ l. IsBehind v.applied_so_far l (s.runners j)) next_is (v.behind j)))
              (advance-IsBehind (v.applied_so_far ++ (m ∷ [])) todo r);
      })

Step-IsValid :
    {ms : List Migration} {s t : System}
    → Ascending ms
    → Step (ok ms) s t
    → IsValid ms s
    → IsValid ms t
unfolding IsBehind moves
Step-IsValid {ms} a (booted i s) v = record {
  applied_so_far = v.applied_so_far;
  rest = v.rest;
  split = v.split;
  logged = v.logged;
  recorded = v.recorded;
  behind =
      put-IsBehind v.applied_so_far v.rest s.runners i (running ms) v.behind
        ([], v.applied_so_far, refl, v.split);
}
Step-IsValid a (crashed i s) v = record {
  applied_so_far = v.applied_so_far;
  rest = v.rest;
  split = v.split;
  logged = v.logged;
  recorded = v.recorded;
  behind = put-IsBehind v.applied_so_far v.rest s.runners i idle v.behind tt;
}
Step-IsValid {ms} a (moved i f m todo s e) v =
    pass-IsValid ms s i m todo (apply_one f m s.db) a v e (apply_one-IsOutcome f m s.db)

Reach-IsValid : {ms : List Migration} {s : System} → Ascending ms → Reach (ok ms) s → IsValid ms s
unfolding IsBehind
Reach-IsValid {ms} a here = record {
  applied_so_far = [];
  rest = ms;
  split = refl;
  logged = refl;
  recorded = refl;
  behind = λ i. tt;
}
Reach-IsValid a (next r st) = Step-IsValid a st (Reach-IsValid a r)

none_left : (done rest : List Migration) → IsBehind done rest (running []) → rest ≡ []
unfolding IsBehind
none_left done rest (seen, [], d, e) = sym e
none_left done rest (seen, k ∷ skipped, d, e) = ground arith

finished-log :
    {ms : List Migration} {s : System} (v : IsValid ms s) (i : ℕ)
    → s.runners i ≡ running []
    → s.db.log ≡ map sql_of ms
finished-log v i e =
    v.logged
    ∙ ap (map sql_of) (
        sym (append-nil v.applied_so_far)
        ∙ ap (λ l. v.applied_so_far ++ l)
            (sym (none_left v.applied_so_far v.rest (IsBehind-at v i e)))
        ∙ sym v.split)

-- Where the directory is read as the migrations `ms`: their versions ascend; and however runners of
-- Migrate boot with them, fail at any statement, lose the answer of a commit and crash, in any order,
-- the database has had the SQL of the first of them, in order and each once, and schema_migrations
-- their versions; once a runner has returned nil it has had that of all.
pub migrate-rollout :
    (read : List ℕ → Option String) (dir : Option (List Entry)) (ms : List Migration) {s : System}
    → load_migrations read dir ≡ ok ms
    → Reach (load_migrations read dir) s
    → Ascending ms
      × ((done : List Migration) × (rest : List Migration) × (ms ≡ done ++ rest)
          × (s.db.log ≡ map sql_of done)
          × (rows s.db.table ≡ map row done))
      × ((i : ℕ) → s.runners i ≡ running [] → s.db.log ≡ map sql_of ms)
migrate-rollout read dir ms {s} e r =
    (let a = load_migrations-Ascending read dir ms e in
      let v = Reach-IsValid a (subst (λ l. Reach l s) e r) in
      (a, (v.applied_so_far, v.rest, v.split, v.logged, v.recorded), finished-log v))
