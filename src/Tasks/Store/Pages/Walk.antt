-- ===== src/Tasks/Store/Pages/Walk.antt =====
-- services/tasks/internal/store/store.go: the pages together are the table.
use mathlib.Core.List.{append-nil}
use golang_basics.Base.{
  Result, ok, err, ℕ, suc, zero, ◌≤◌, ◌<◌, ◌≡◌, refl, sym, ap, ap₂, ◌∙◌, inl, inr, ◌↔◌, Bool, true,
  false, Option, none, some, List, [], ◌∷◌, ◌++◌, String, arith, IsIn, Bool-cases, ltb, ltb→lt,
  length, take, subst,
}
use golang_basics.Base.Int.{ℤ}
use golang_basics.Tasks.Domain.{Task, Cursor, cursor_after, Page}
use golang_basics.Tasks.Store.{Env, StoreError, select_page}
use golang_basics.Tasks.Store.Tables.{Db}
use golang_basics.Tasks.Store.Valid.{IsUnique}
use golang_basics.Tasks.Store.Pages.{
  row_lt, order_desc, rows_after, last_cursor, page_limit, make_page, list,
}
use golang_basics.Tasks.Store.Pages.After.{
  order_desc-rows_after, rows_after-last, rows_after_twice, rows_after-lt, rows_after-IsDesc,
}
use golang_basics.Tasks.Store.Pages.Order.{
  IsCollation, IsDesc, drop, last_cursor-All, order_desc-IsDesc, length-order_desc, order_desc-IsIn,
}

length-take : (n : ℕ) (ts : List Task) → n ≤ length ts → length (take n ts) ≡ n
length-take zero ts h = refl
length-take (suc n) [] h = ground arith
length-take (suc n) (t ∷ ts) h = ap suc (length-take n ts (omega (arith, h)))

take_whole : (n : ℕ) (ts : List Task) → length ts ≤ n → take n ts ≡ ts
take_whole zero [] h = refl
take_whole zero (t ∷ ts) h = ground arith
take_whole (suc n) [] h = refl
take_whole (suc n) (t ∷ ts) h = ap (λ l. t ∷ l) (take_whole n ts (omega (arith, h)))

take-take : (n : ℕ) (ts : List Task) → take n (take (suc n) ts) ≡ take n ts
take-take zero ts = refl
take-take (suc n) [] = refl
take-take (suc n) (t ∷ ts) = ap (λ l. t ∷ l) (take-take n ts)

take-drop : (n : ℕ) (ts : List Task) → take n ts ++ drop n ts ≡ ts
take-drop zero ts = refl
take-drop (suc n) [] = refl
take-drop (suc n) (t ∷ ts) = ap (λ l. t ∷ l) (take-drop n ts)

le→ltb : (n m : ℕ) → m ≤ n → ltb n m ≡ false
le→ltb n m h = ground arith

length-drop : (n : ℕ) (ts : List Task) → 1 ≤ n → n < length ts → length (drop n ts) < length ts
length-drop zero ts h g = ground arith
length-drop (suc n) [] h g = ground arith
length-drop (suc zero) (t ∷ ts) h g = omega arith
length-drop (suc (suc n)) (t ∷ ts) h g =
    let s = length-drop (suc n) ts (omega arith) (omega (arith, g)) in omega (arith, s)

module _ (id_lt : String → String → Bool) where
  last_cursor-take :
      (n : ℕ) (ts : List Task) → last_cursor id_lt n (take (suc n) ts) ≡ last_cursor id_lt n ts
  unfolding last_cursor
  last_cursor-take n [] = refl
  last_cursor-take zero (t ∷ ts) = refl
  last_cursor-take (suc zero) (t ∷ ts) = refl
  last_cursor-take (suc (suc n)) (t ∷ ts) = last_cursor-take (suc n) ts

  last_cursor-some :
      (n : ℕ) (ts : List Task)
      → 1 ≤ n
      → n ≤ length ts
      → (c : Cursor) × (last_cursor id_lt n ts ≡ some c)
  unfolding last_cursor
  last_cursor-some n [] h g = ground arith
  last_cursor-some zero (t ∷ ts) h g = ground arith
  last_cursor-some (suc zero) (t ∷ ts) h g = (cursor_after t, refl)
  last_cursor-some (suc (suc n)) (t ∷ ts) h g =
      last_cursor-some (suc n) ts (omega arith) (omega (arith, g))

  make_page-last :
      (n : ℕ) (ts : List Task)
      → length ts ≤ n
      → make_page id_lt n (take (suc n) ts) ≡ record { tasks = ts; next = none }
  unfolding make_page
  make_page-last n ts h =
      ap (make_page id_lt n) (take_whole (suc n) ts (omega (arith, h)))
      ∙ ground (arith, le→ltb n (length ts) h)

  make_page-long :
      (n : ℕ) (rows : List Task)
      → n < length rows
      → make_page id_lt n rows ≡ record { tasks = take n rows; next = last_cursor id_lt n rows }
  unfolding make_page
  make_page-long n rows h = ground arith

  make_page-full :
      (n : ℕ) (ts : List Task)
      → n < length ts
      → make_page id_lt n (take (suc n) ts)
        ≡ record { tasks = take n ts; next = last_cursor id_lt n ts }
  unfolding make_page
  make_page-full n ts h =
      make_page-long n (take (suc n) ts) (omega (arith, length-take (suc n) ts h))
      ∙ ap₂ (λ l c. record { tasks = l; next = c }) (take-take n ts) (last_cursor-take n ts)

  page_limit-pos : (z : ℤ) → 1 ≤ page_limit id_lt z
  page_limit-pos z = ground arith

  abbrev rest_of : Option Cursor → (Cursor → List Task) → List Task
  rest_of none more = []
  rest_of (some c) more = more c

  -- A client that asks for page after page, at most `n` of them; it stops at an error.
  abbrev next_page : Result StoreError Page → (Cursor → List Task) → List Task
  next_page (err x) more = []
  next_page (ok p) more = p.tasks ++ rest_of p.next more

  abbrev pub walk : ℕ → ℤ → Option Cursor → Env → Db → List Task
  walk zero limit c e db = []
  walk (suc n) limit c e db =
      next_page (list id_lt (record { limit = limit; cursor = c }) e db).0
        (λ c'. walk n limit (some c') e db)

  list-healthy :
      (limit : ℤ) (c : Option Cursor) (e : Env) (db : Db)
      → e.fails select_page ≡ false
      → (list id_lt (record { limit = limit; cursor = c }) e db).0
        ≡ ok (
            make_page id_lt (page_limit id_lt limit) (
              take (suc (page_limit id_lt limit)) (order_desc id_lt (rows_after id_lt c db.tasks))))
  unfolding list
  list-healthy limit c e db up = ground arith

  module _ (law : IsCollation id_lt) where
    -- The rows that a cursor leaves.
    abbrev rows_left : Option Cursor → Db → List Task
    rows_left c db = rows_after id_lt c (order_desc id_lt db.tasks)

    rows_left-last :
        (n : ℕ) (c : Option Cursor) (c' : Cursor) (db : Db)
        → IsUnique db.tasks
        → last_cursor id_lt n (rows_left c db) ≡ some c'
        → rows_left (some c') db ≡ drop n (rows_left c db)
    unfolding rows_after order_desc
    rows_left-last n none c' db u h =
        rows_after-last id_lt law n (order_desc id_lt db.tasks) c'
          (order_desc-IsDesc id_lt law db.tasks u) h
    rows_left-last n (some c) c' db u h =
        let all = order_desc id_lt db.tasks in
        let (v, p, e) =
          last_cursor-All id_lt law (λ v. row_lt id_lt (cursor_after v) c ≡ true) n
            (rows_after id_lt (some c) all) c' h (rows_after-lt id_lt law c all) in
        sym (rows_after_twice id_lt law c c' all (ap (λ z. row_lt id_lt z c) (sym e) ∙ p))
        ∙ rows_after-last id_lt law n (rows_after id_lt (some c) all) c'
            (rows_after-IsDesc id_lt law c all (order_desc-IsDesc id_lt law db.tasks u)) h

    walk-rows_left :
        (n : ℕ) (limit : ℤ) (c : Option Cursor) (e : Env) (db : Db)
        → IsUnique db.tasks
        → e.fails select_page ≡ false
        → length (rows_left c db) < n
        → walk n limit c e db ≡ rows_left c db
    walk-rows_left zero limit c e db u up h = ground arith
    walk-rows_left (suc n) limit c e db u up h =
        let lim = page_limit id_lt limit in
        let page =
          list-healthy limit c e db up
          ∙ ap (λ l. ok (make_page id_lt lim (take (suc lim) l)))
              (order_desc-rows_after id_lt law c db.tasks u) in
        elim (Bool-cases (ltb lim (length (rows_left c db)))) [
          | inr b ↦
              ap (λ r. next_page r (λ c'. walk n limit (some c') e db))
                (page ∙ ap ok (make_page-last lim (rows_left c db) (ground arith)))
              ∙ append-nil (rows_left c db)
          | inl b ↦
              let g = ltb→lt lim (length (rows_left c db)) b in
              let (c', l) =
                last_cursor-some lim (rows_left c db) (page_limit-pos limit) (omega (arith, g)) in
              let more = rows_left-last lim c c' db u l in
              let less = length-drop lim (rows_left c db) (page_limit-pos limit) g in
              ap (λ r. next_page r (λ c'. walk n limit (some c') e db))
                (page ∙ ap ok (make_page-full lim (rows_left c db) g))
              ∙ ap (λ o. take lim (rows_left c db) ++ rest_of o (λ c'. walk n limit (some c') e db))
                  l
              ∙ ap (λ r. take lim (rows_left c db) ++ r)
                  (walk-rows_left n limit (some c') e db u up
                      (subst (λ r. length r < n) (sym more) (omega (arith, less, h)))
                    ∙ more)
              ∙ take-drop lim (rows_left c db)
        ]

    -- A client that asks for page after page while nothing fails, with whatever limit, gets the whole
    -- table in at most one page more than it has rows: strictly descending in (created_at, id), so
    -- none twice, and with every row. The ids are unique and ordered by a collation.
    pub walk-all :
        (limit : ℤ) (e : Env) (db : Db)
        → IsUnique db.tasks
        → e.fails select_page ≡ false
        → let pages = walk (suc (length db.tasks)) limit none e db in
          IsDesc id_lt pages × ((t : Task) → IsIn t db.tasks ↔ IsIn t pages)
    unfolding rows_after order_desc
    walk-all limit e db u up =
        subst (λ pages. IsDesc id_lt pages × ((t : Task) → IsIn t db.tasks ↔ IsIn t pages))
          (sym (
            walk-rows_left (suc (length db.tasks)) limit none e db u up
              (omega (arith, length-order_desc id_lt law db.tasks))))
          (order_desc-IsDesc id_lt law db.tasks u, λ t. order_desc-IsIn id_lt law t db.tasks)
