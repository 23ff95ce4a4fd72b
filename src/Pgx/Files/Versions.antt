-- ===== src/Pgx/Files/Versions.antt =====
-- libs/pgx/migrate.go: the migrations that are loaded have ascending versions.
use golang_basics.Base.{
  not, ◌||◌, Result, ok, err, ℕ, ◌<◌, Option, none, some, List, [], ◌∷◌, String, leb, ◌≡◌, ◌≢◌,
  refl, subst, inl, inr, Bool-cases, if-P, All, arith,
}
use golang_basics.Pgx.Files.{
  Entry, Migration, LoadError, Seen, find_seen, read_entry, cons_ok, load_entries, insert,
  sort_versions, need, refuse, with_entry, has_sql_ext, match_file, parse_version, bad_name,
  bad_version, unreadable_file, shared_version, migration_of, read_new, read_matched, sort_ok,
  load_migrations,
}

-- Every version is below those that follow.
unfoldable pub Ascending : List Migration → Type 0
Ascending [] = Unit
Ascending (m ∷ ms) = All (λ n. m.version < n.version) ms × Ascending ms

unfoldable Distinct : List Migration → Type 0
Distinct [] = Unit
Distinct (m ∷ ms) = All (λ n. n.version ≢ m.version) ms × Distinct ms

module _ (P : Migration → Type 0) where
  insert-All : (m : Migration) (ms : List Migration) → P m → All P ms → All P (insert m ms)
  unfolding insert
  insert-All m [] p u = (p, u)
  insert-All m (n ∷ ns) p (q, qs) = elim (Bool-cases (leb m.version n.version)) [
    | inl e ↦ rw e (p, (q, qs))
    | inr e ↦ rw e (q, insert-All m ns p qs)
  ]

  sort_versions-All : (ms : List Migration) → All P ms → All P (sort_versions ms)
  unfolding sort_versions
  sort_versions-All [] u = u
  sort_versions-All (m ∷ ms) (p, ps) = insert-All m (sort_versions ms) p (sort_versions-All ms ps)

All-below :
    (a b : ℕ) (ms : List Migration)
    → a < b
    → All (λ n. b < n.version) ms
    → All (λ n. a < n.version) ms
All-below a b [] h u = u
All-below a b (n ∷ ns) h (p, ps) = (omega arith, All-below a b ns h ps)

insert-Ascending :
    (m : Migration) (ms : List Migration)
    → All (λ n. n.version ≢ m.version) ms
    → Ascending ms
    → Ascending (insert m ms)
unfolding insert Ascending
insert-Ascending m [] d a = (tt, tt)
insert-Ascending m (n ∷ ns) (d, ds) (b, a) = elim (Bool-cases (leb m.version n.version)) [
  | inl e ↦
      let below : m.version < n.version = ground arith in
      rw e ((below, All-below m.version n.version ns below b), (b, a))
  | inr e ↦
      rw e
        (insert-All (λ k. n.version < k.version) m ns (ground arith) b, insert-Ascending m ns ds a)
]

sort_versions-Ascending : (ms : List Migration) → Distinct ms → Ascending (sort_versions ms)
unfolding sort_versions Distinct Ascending
sort_versions-Ascending [] u = u
sort_versions-Ascending (m ∷ ms) (d, ds) =
    insert-Ascending m (sort_versions ms) (sort_versions-All (λ n. n.version ≢ m.version) ms d)
      (sort_versions-Ascending ms ds)

-- What holds of the result of a pass, and of the loop, when `seen` has the versions before.
unfoldable IsUnseen : Seen → Result LoadError (Option Migration) → Type 0
IsUnseen seen (ok (some m)) = find_seen m.version seen ≡ none
IsUnseen seen _ = Unit

unfoldable IsFresh : Seen → Result LoadError (List Migration) → Type 0
IsFresh seen (ok ms) = All (λ m. find_seen m.version seen ≡ none) ms × Distinct ms
IsFresh seen (err e) = Unit

nothing-IsUnseen : (seen : Seen) → IsUnseen seen (ok none)
unfolding IsUnseen
nothing-IsUnseen seen = tt

module _ {A : Type 0} (seen : Seen) where
  need-IsUnseen :
      (o : Option A) (x : LoadError) (f : A → Result LoadError (Option Migration))
      → ((a : A) → IsUnseen seen (f a))
      → IsUnseen seen (need o x f)
  unfolding IsUnseen
  need-IsUnseen none x f h = tt
  need-IsUnseen (some a) x f h = h a

  refuse-IsUnseen :
      (o : Option A) (x : A → LoadError) (r : Result LoadError (Option Migration))
      → (o ≡ none → IsUnseen seen r)
      → IsUnseen seen (refuse o x r)
  unfolding IsUnseen
  refuse-IsUnseen none x r h = h refl
  refuse-IsUnseen (some a) x r h = tt

read_new-IsUnseen :
    (read : List ℕ → Option String) (seen : Seen) (e : Entry) (name : List ℕ) (v : ℕ)
    → IsUnseen seen (read_new read seen e name v)
unfolding read_new IsUnseen
read_new-IsUnseen read seen e name v =
    refuse-IsUnseen seen (find_seen v seen) (λ prev. shared_version prev e.name v)
      (need (read e.name) (unreadable_file e.name) (migration_of e name v))
      (λ u.
        need-IsUnseen seen (read e.name) (unreadable_file e.name) (migration_of e name v) (λ b. u))

read_entry-IsUnseen :
    (read : List ℕ → Option String) (seen : Seen) (e : Entry)
    → IsUnseen seen (read_entry read seen e)
unfolding read_entry read_matched
read_entry-IsUnseen read seen e =
    if-P (IsUnseen seen) (e.is_dir || not (has_sql_ext e.name)) (ok none)
      (need (match_file e.name) (bad_name e.name) (read_matched read seen e))
      (λ h. nothing-IsUnseen seen)
      (λ h.
        need-IsUnseen seen (match_file e.name) (bad_name e.name) (read_matched read seen e)
          (λ (digits, name).
            need-IsUnseen seen (parse_version digits) (bad_version e.name)
              (read_new read seen e name) (read_new-IsUnseen read seen e name)))

unseen-split :
    (v : ℕ) (f : List ℕ) (seen : Seen) (ms : List Migration)
    → All (λ m. find_seen m.version ((v, f) ∷ seen) ≡ none) ms
    → All (λ m. m.version ≢ v) ms × All (λ m. find_seen m.version seen ≡ none) ms
unfolding find_seen
unseen-split v f seen [] u = (tt, tt)
unseen-split v f seen (m ∷ ms) (p, ps) =
    let (d, us) = unseen-split v f seen ms ps in ((ground arith, d), (ground arith, us))

cons_ok-IsFresh :
    (m : Migration) (seen : Seen) (r : Result LoadError (List Migration))
    → find_seen m.version seen ≡ none
    → IsFresh ((m.version, m.file) ∷ seen) r
    → IsFresh seen (cons_ok m r)
unfolding IsFresh Distinct
cons_ok-IsFresh m seen (ok ms) u (us, d) =
    let (ds, vs) = unseen-split m.version m.file seen ms us in ((u, vs), (ds, d))
cons_ok-IsFresh m seen (err e) u h = tt

with_entry-IsFresh :
    (seen : Seen) (r : Result LoadError (Option Migration))
    (rest : Result LoadError (List Migration)) (f : Migration → Result LoadError (List Migration))
    → IsUnseen seen r
    → IsFresh seen rest
    → ((m : Migration) → find_seen m.version seen ≡ none → IsFresh seen (f m))
    → IsFresh seen (with_entry r rest f)
unfolding IsFresh IsUnseen
with_entry-IsFresh seen (err x) rest f u h k = tt
with_entry-IsFresh seen (ok none) rest f u h k = h
with_entry-IsFresh seen (ok (some m)) rest f u h k = k m u

load_entries-IsFresh :
    (read : List ℕ → Option String) (es : List Entry) (seen : Seen)
    → IsFresh seen (load_entries read es seen)
unfolding load_entries IsFresh Distinct
load_entries-IsFresh read [] seen = (tt, tt)
load_entries-IsFresh read (e ∷ es) seen =
    with_entry-IsFresh seen (read_entry read seen e) _ _ (read_entry-IsUnseen read seen e)
      (load_entries-IsFresh read es seen)
      (λ m u.
        cons_ok-IsFresh m seen _ u (load_entries-IsFresh read es ((m.version, m.file) ∷ seen)))

unfoldable IsAscending : Result LoadError (List Migration) → Type 0
IsAscending (ok ms) = Ascending ms
IsAscending (err e) = Unit

sort_ok-IsAscending :
    (r : Result LoadError (List Migration)) → IsFresh [] r → IsAscending (sort_ok r)
unfolding IsFresh IsAscending
sort_ok-IsAscending (ok ms) (u, d) = sort_versions-Ascending ms d
sort_ok-IsAscending (err e) u = tt

load_migrations-IsAscending :
    (read : List ℕ → Option String) (dir : Option (List Entry))
    → IsAscending (load_migrations read dir)
unfolding load_migrations IsAscending
load_migrations-IsAscending read none = tt
load_migrations-IsAscending read (some es) =
    sort_ok-IsAscending (load_entries read es []) (load_entries-IsFresh read es [])

pub load_migrations-Ascending :
    (read : List ℕ → Option String) (dir : Option (List Entry)) (ms : List Migration)
    → load_migrations read dir ≡ ok ms
    → Ascending ms
unfolding IsAscending
load_migrations-Ascending read dir ms e = subst IsAscending e (load_migrations-IsAscending read dir)
