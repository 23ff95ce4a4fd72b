-- ===== src/Tasks/Store/Pages.antt =====
-- services/tasks/internal/store/store.go: List, and a client that follows its cursors. The order of
-- ids is the database's collation, a parameter.
pub mod Order
pub mod After
pub mod Walk
use golang_basics.Base.{
  Result, ok, err, ℕ, suc, zero, ◌+◌, ◌≤◌, ◌<◌, ◌≡◌, ◌≢◌, refl, sym, ap, ap₂, ◌∙◌, inl, inr, ◌⊎◌,
  Bool, true, false, ◌&&◌, ◌||◌, Option, none, some, List, [], ◌∷◌, ◌++◌, String, arith, All,
  Bool-cases, Option-cases, if◌then◌else◌, ltb, leb, ◌==◌, length, take,
}
use golang_basics.Base.Int.{ℤ, pos, pos_part, leb_ℤ, ltb_ℤ}
use golang_basics.Tasks.Domain.{
  Task, Cursor, cursor_after, Page, PageRequest, default_page_size, max_page_size,
}
use golang_basics.Tasks.Store.Tables.{Db}
use golang_basics.Tasks.Store.{
  Env, Tx, StoreError, driver, run, select_page, gets, ◌>>=◌, ◌>>◌, pure,
}

module _ (id_lt : String → String → Bool) where
  -- `(created_at, id) < ($1, $2)`, as PostgreSQL compares rows.
  unfoldable pub row_lt : Cursor → Cursor → Bool
  row_lt a b = ltb a.created_at b.created_at || ((a.created_at == b.created_at) && id_lt a.id b.id)

  -- ORDER BY created_at DESC, id DESC
  unfoldable pub insert_desc : Task → List Task → List Task
  unfolding row_lt cursor_after
  insert_desc t [] = t ∷ []
  insert_desc t (u ∷ us) =
      let rest = insert_desc t us in
      if row_lt (cursor_after t) (cursor_after u) then u ∷ rest else t ∷ u ∷ us

  unfoldable pub order_desc : List Task → List Task
  unfolding insert_desc
  order_desc [] = []
  order_desc (t ∷ ts) = insert_desc t (order_desc ts)

  -- WHERE (created_at, id) < cursor; a first page has no such clause.
  unfoldable pub rows_after : Option Cursor → List Task → List Task
  unfolding row_lt cursor_after
  rows_after none ts = ts
  rows_after (some c) [] = []
  rows_after (some c) (t ∷ ts) =
      let rest = rows_after (some c) ts in if row_lt (cursor_after t) c then t ∷ rest else rest

  abbrev pub page_limit : ℤ → ℕ
  page_limit z =
      if leb_ℤ z (pos 0) || ltb_ℤ (pos max_page_size) z then default_page_size else pos_part z

  -- The cursor after the last of the first `n` rows.
  unfoldable pub last_cursor : ℕ → List Task → Option Cursor
  unfolding cursor_after
  last_cursor n [] = none
  last_cursor zero (t ∷ ts) = none
  last_cursor (suc zero) (t ∷ ts) = some (cursor_after t)
  last_cursor (suc (suc n)) (t ∷ ts) = last_cursor (suc n) ts

  unfoldable pub make_page : ℕ → List Task → Page
  unfolding last_cursor
  make_page limit rows =
      if ltb limit (length rows)
      then record { tasks = take limit rows; next = last_cursor limit rows }
      else record { tasks = rows; next = none }

  unfoldable pub list : PageRequest → Tx Page
  unfolding make_page rows_after order_desc
  list req = do
    run select_page
    limit ← pure (page_limit req.limit)
    rows ← gets (λ e db. take (suc limit) (order_desc (rows_after req.cursor db.tasks)))
    pure (make_page limit rows)
