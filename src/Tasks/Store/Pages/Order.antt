-- ===== src/Tasks/Store/Pages/Order.antt =====
-- services/tasks/internal/store/store.go: the order of the pages, and what a cursor leaves of it.
use golang_basics.Base.{
  ℕ, suc, zero, ◌≡◌, ◌≢◌, refl, sym, ap, ◌∙◌, inl, inr, ◌⊎◌, Bool, true, false, Option, none, some,
  List, [], ◌∷◌, String, arith, All, IsIn, IsIn-All, subst, ◌↔◌, Bool-cases, length,
}
use golang_basics.Tasks.Domain.{Task, Cursor, cursor_after}
use golang_basics.Tasks.Store.Valid.{IsUnique, All-map}
use golang_basics.Tasks.Store.Pages.{row_lt, insert_desc, order_desc, rows_after, last_cursor}

-- A collation orders the ids strictly and totally.
pub record IsCollation (id_lt : String → String → Bool) : Type 0 where
  pub irrefl : (a : String) → id_lt a a ≡ false
  pub trans : (a b c : String) → id_lt a b ≡ true → id_lt b c ≡ true → id_lt a c ≡ true
  pub total : (a b : String) → a ≢ b → id_lt a b ≡ false → id_lt b a ≡ true

-- Strictly descending, as the pages show the rows.
abbrev pub IsDesc : (String → String → Bool) → List Task → Type 0
IsDesc lt [] = Unit
IsDesc lt (t ∷ ts) = All (λ u. row_lt lt (cursor_after u) (cursor_after t) ≡ true) ts × IsDesc lt ts

All-IsIn : (P : Task → Type 0) (ts : List Task) → All P ts → (x : Task) → IsIn x ts → P x
All-IsIn P [] u x m = absurd m
All-IsIn P (t ∷ ts) (p, ps) x (inl e) = subst P (sym e) p
All-IsIn P (t ∷ ts) (p, ps) x (inr m) = All-IsIn P ts ps x m

abbrev pub drop : ℕ → List Task → List Task
drop zero ts = ts
drop (suc n) [] = []
drop (suc n) (t ∷ ts) = drop n ts

module _ (id_lt : String → String → Bool) (law : IsCollation id_lt) where
  pub row_lt_irrefl : (a : Cursor) → row_lt id_lt a a ≡ false
  unfolding row_lt
  row_lt_irrefl a = ground (arith, law.irrefl a.id)

  pub row_lt_trans :
      (a b c : Cursor) → row_lt id_lt a b ≡ true → row_lt id_lt b c ≡ true → row_lt id_lt a c ≡ true
  unfolding row_lt
  row_lt_trans a b c h g = ground (arith, law.trans a.id b.id c.id)

  row_lt-total : (a b : Cursor) → a.id ≢ b.id → row_lt id_lt a b ≡ false → row_lt id_lt b a ≡ true
  unfolding row_lt
  row_lt-total a b ne h = ground (arith, law.total a.id b.id ne)

  module _ (P : Task → Type 0) where
    pub insert_desc-All :
        (t : Task) (us : List Task) → P t → All P us → All P (insert_desc id_lt t us)
    unfolding insert_desc
    insert_desc-All t [] p u = (p, tt)
    insert_desc-All t (v ∷ us) p (q, qs) =
        elim (Bool-cases (row_lt id_lt (cursor_after t) (cursor_after v))) [
          | inl b ↦ simp b (q, insert_desc-All t us p qs)
          | inr b ↦ simp b (p, (q, qs))
        ]

    pub order_desc-All : (ts : List Task) → All P ts → All P (order_desc id_lt ts)
    unfolding order_desc
    order_desc-All [] u = tt
    order_desc-All (t ∷ ts) (p, ps) =
        insert_desc-All t (order_desc id_lt ts) p (order_desc-All ts ps)

    pub rows_after-All :
        (c : Option Cursor) (ts : List Task) → All P ts → All P (rows_after id_lt c ts)
    unfolding rows_after
    rows_after-All none ts u = u
    rows_after-All (some c) [] u = tt
    rows_after-All (some c) (t ∷ ts) (p, ps) = elim (Bool-cases (row_lt id_lt (cursor_after t) c)) [
      | inl b ↦ simp b (p, rows_after-All (some c) ts ps)
      | inr b ↦ simp b (rows_after-All (some c) ts ps)
    ]

    pub last_cursor-All :
        (n : ℕ) (ts : List Task) (c : Cursor)
        → last_cursor id_lt n ts ≡ some c
        → All P ts
        → (t : Task) × P t × (cursor_after t ≡ c)
    unfolding last_cursor
    last_cursor-All n [] c h u = ground arith
    last_cursor-All zero (t ∷ ts) c h u = ground arith
    last_cursor-All (suc zero) (t ∷ ts) c h (p, ps) = (t, p, ground arith)
    last_cursor-All (suc (suc n)) (t ∷ ts) c h (p, ps) = last_cursor-All (suc n) ts c h ps

  insert_desc-IsDesc :
      (t : Task) (us : List Task)
      → All (λ u. u.id ≢ t.id) us
      → IsDesc id_lt us
      → IsDesc id_lt (insert_desc id_lt t us)
  unfolding insert_desc cursor_after
  insert_desc-IsDesc t [] n d = (tt, tt)
  insert_desc-IsDesc t (u ∷ us) (n, ns) (h, d) =
      elim (Bool-cases (row_lt id_lt (cursor_after t) (cursor_after u))) [
        | inl b ↦ simp b (
          insert_desc-All (λ v. row_lt id_lt (cursor_after v) (cursor_after u) ≡ true) t us b h,
          insert_desc-IsDesc t us ns d,
        )
        | inr b ↦
            let first = row_lt-total (cursor_after t) (cursor_after u) (λ e. n (sym e)) b in
            simp b (
              (
                first,
                All-map _ _ us
                    (λ v g. row_lt_trans (cursor_after v) (cursor_after u) (cursor_after t) g first)
                    h,
              ),
              (h, d),
            )
      ]

  pub order_desc-IsDesc : (ts : List Task) → IsUnique ts → IsDesc id_lt (order_desc id_lt ts)
  unfolding order_desc
  order_desc-IsDesc [] u = tt
  order_desc-IsDesc (t ∷ ts) (n, u) =
      insert_desc-IsDesc t (order_desc id_lt ts) (order_desc-All (λ v. v.id ≢ t.id) ts n)
        (order_desc-IsDesc ts u)

  insert_desc-IsIn :
      (x t : Task) (us : List Task) → (x ≡ t) ⊎ IsIn x us → IsIn x (insert_desc id_lt t us)
  unfolding insert_desc
  insert_desc-IsIn x t [] m = m
  insert_desc-IsIn x t (u ∷ us) m =
      elim (Bool-cases (row_lt id_lt (cursor_after t) (cursor_after u))) [
        | inr b ↦ simp b m
        | inl b ↦ simp b (under (insert_desc-IsIn x t us) m)
      ]
    where
      under :
          ((x ≡ t) ⊎ IsIn x us → IsIn x (insert_desc id_lt t us))
          → (x ≡ t) ⊎ ((x ≡ u) ⊎ IsIn x us)
          → (x ≡ u) ⊎ IsIn x (insert_desc id_lt t us)
      under below_u (inl e) = inr (below_u (inl e))
      under below_u (inr (inl e)) = inl e
      under below_u (inr (inr m)) = inr (below_u (inr m))

  insert_desc-length :
      (t : Task) (us : List Task) → length (insert_desc id_lt t us) ≡ suc (length us)
  unfolding insert_desc
  insert_desc-length t [] = refl
  insert_desc-length t (u ∷ us) = ground (arith, insert_desc-length t us)

  pub length-order_desc : (ts : List Task) → length (order_desc id_lt ts) ≡ length ts
  unfolding order_desc
  length-order_desc [] = refl
  length-order_desc (t ∷ ts) =
      insert_desc-length t (order_desc id_lt ts) ∙ ap suc (length-order_desc ts)

  IsIn-order_desc : (x : Task) (ts : List Task) → IsIn x ts → IsIn x (order_desc id_lt ts)
  unfolding order_desc
  IsIn-order_desc x [] m = m
  IsIn-order_desc x (t ∷ ts) (inl e) = insert_desc-IsIn x t (order_desc id_lt ts) (inl e)
  IsIn-order_desc x (t ∷ ts) (inr m) =
      insert_desc-IsIn x t (order_desc id_lt ts) (inr (IsIn-order_desc x ts m))

  pub order_desc-IsIn : (x : Task) (ts : List Task) → IsIn x ts ↔ IsIn x (order_desc id_lt ts)
  order_desc-IsIn x ts = (
    IsIn-order_desc x ts,
    λ m.
        All-IsIn (λ y. IsIn y ts) (order_desc id_lt ts)
          (order_desc-All (λ y. IsIn y ts) ts (IsIn-All (λ y. IsIn y ts) ts (λ y i. i))) x m,
  )
