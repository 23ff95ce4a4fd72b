-- ===== src/Pgx/Files.antt =====
-- libs/pgx/migrate.go: reading the migrations.
pub mod Versions
use golang_basics.Base.{
  Result, ok, err, ℕ, ◌<◌, ◌^◌, Bool, true, false, not, ◌&&◌, ◌||◌, Option, none, some, List, [],
  ◌∷◌, ◌++◌, String, ltb, leb, ◌==◌, if◌then◌else◌, ◌≡◌, map, reverse,
}
use golang_basics.Base.Decimal.{is_digit, decimal}

-- A file name is a list of runes.
pub record Entry : Type 0 where
  pub name : List ℕ
  pub is_dir : Bool

pub record Migration : Type 0 where
  pub version : ℕ
  pub name : List ℕ
  pub file : List ℕ
  pub sql : String

pub data LoadError : Type 0 where
  unreadable_dir : LoadError
  bad_name bad_version unreadable_file : List ℕ → LoadError
  shared_version : List ℕ → List ℕ → ℕ → LoadError

-- The characters of the name in the pattern of `migrationFile`.
unfoldable pub is_name_rune : ℕ → Bool
is_name_rune c = (leb b'a' c && leb c b'z') || is_digit c || (c == b'_')

-- The longest prefix whose runes pass, and what follows.
unfoldable pub span : (ℕ → Bool) → List ℕ → List ℕ × List ℕ
span p [] = ([], [])
span p (c ∷ cs) = let (front, rest) = span p cs in if p c then (c ∷ front, rest) else ([], c ∷ cs)

abbrev is_sql : List ℕ → Bool
is_sql (a ∷ b ∷ c ∷ d ∷ []) = (a == b'.') && (b == b's') && (c == b'q') && (d == b'l')
is_sql _ = false

-- path.Ext(name) == ".sql"
unfoldable pub has_sql_ext : List ℕ → Bool
has_sql_ext (a ∷ s) = let rest = has_sql_ext s in is_sql (a ∷ s) || rest
has_sql_ext [] = false

abbrev match_rest : List ℕ → List ℕ × List ℕ → Option (List ℕ × List ℕ)
match_rest v ([], rest) = none
match_rest v (c ∷ name, rest) = if is_sql rest then some (v, c ∷ name) else none

abbrev match_version : List ℕ × List ℕ → Option (List ℕ × List ℕ)
match_version ([], rest) = none
match_version (v, []) = none
match_version (v, c ∷ rest) = if c == b'_' then match_rest v (span is_name_rune rest) else none

-- The submatches of `migrationFile`.
unfoldable pub match_file : List ℕ → Option (List ℕ × List ℕ)
unfolding span is_name_rune
match_file s = match_version (span is_digit s)

-- strconv.ParseInt(digits, 10, 64)
unfoldable pub parse_version : List ℕ → Option ℕ
parse_version digits = let v = decimal 0 digits in if ltb v (2 ^ 63) then some v else none

abbrev pub Seen : Type 0
Seen = List (ℕ × List ℕ)

unfoldable pub find_seen : ℕ → Seen → Option (List ℕ)
find_seen v [] = none
find_seen v ((w, f) ∷ seen) = let rest = find_seen v seen in if w == v then some f else rest

module _ {A B : Type 0} where
  abbrev pub need : Option A → LoadError → (A → Result LoadError B) → Result LoadError B
  need none x f = err x
  need (some a) x f = f a

  abbrev pub refuse : Option A → (A → LoadError) → Result LoadError B → Result LoadError B
  refuse none x r = r
  refuse (some a) x r = err (x a)

abbrev pub migration_of : Entry → List ℕ → ℕ → String → Result LoadError (Option Migration)
migration_of e name v body =
    ok (some (record { version = v; name = name; file = e.name; sql = body }))

unfoldable pub read_new :
    (List ℕ → Option String) → Seen → Entry → List ℕ → ℕ → Result LoadError (Option Migration)
unfolding find_seen
read_new read seen e name v =
    refuse (find_seen v seen) (λ prev. shared_version prev e.name v)
      (need (read e.name) (unreadable_file e.name) (migration_of e name v))

unfoldable pub read_matched :
    (List ℕ → Option String) → Seen → Entry → List ℕ × List ℕ → Result LoadError (Option Migration)
unfolding parse_version read_new
read_matched read seen e (digits, name) =
    need (parse_version digits) (bad_version e.name) (read_new read seen e name)

-- One pass of the loop over the directory, with `read` for fs.ReadFile; `none` is an entry that is
-- passed over.
unfoldable pub read_entry :
    (List ℕ → Option String) → Seen → Entry → Result LoadError (Option Migration)
unfolding has_sql_ext match_file read_matched
read_entry read seen e =
    if e.is_dir || not (has_sql_ext e.name)
    then ok none
    else need (match_file e.name) (bad_name e.name) (read_matched read seen e)

abbrev pub cons_ok :
    Migration → Result LoadError (List Migration) → Result LoadError (List Migration)
cons_ok m (ok ms) = ok (m ∷ ms)
cons_ok m (err e) = err e

abbrev pub with_entry :
    Result LoadError (Option Migration)
    → Result LoadError (List Migration)
    → (Migration → Result LoadError (List Migration))
    → Result LoadError (List Migration)
with_entry (err x) rest f = err x
with_entry (ok none) rest f = rest
with_entry (ok (some m)) rest f = f m

unfoldable pub load_entries :
    (List ℕ → Option String) → List Entry → Seen → Result LoadError (List Migration)
unfolding read_entry
load_entries read [] seen = ok []
load_entries read (e ∷ es) seen =
    with_entry (read_entry read seen e) (load_entries read es seen)
      (λ m. cons_ok m (load_entries read es ((m.version, m.file) ∷ seen)))

unfoldable pub insert : Migration → List Migration → List Migration
insert m [] = m ∷ []
insert m (n ∷ ns) =
    let rest = insert m ns in if leb m.version n.version then m ∷ n ∷ ns else n ∷ rest

-- sort.Slice by version; no two versions are equal here.
unfoldable pub sort_versions : List Migration → List Migration
unfolding insert
sort_versions [] = []
sort_versions (m ∷ ms) = insert m (sort_versions ms)

abbrev pub sort_ok : Result LoadError (List Migration) → Result LoadError (List Migration)
sort_ok (ok ms) = ok (sort_versions ms)
sort_ok (err e) = err e

-- The directory is `none` where fs.ReadDir fails.
unfoldable pub load_migrations :
    (List ℕ → Option String) → Option (List Entry) → Result LoadError (List Migration)
unfolding load_entries sort_versions
load_migrations read none = err unreadable_dir
load_migrations read (some entries) = sort_ok (load_entries read entries [])
