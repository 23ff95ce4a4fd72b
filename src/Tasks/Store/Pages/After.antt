-- ===== src/Tasks/Store/Pages/After.antt =====
-- services/tasks/internal/store/store.go: what a cursor leaves of the ordered rows.
use mathlib.Core.Bool.{true≢false}
use golang_basics.Base.{
  ℕ, suc, zero, ◌≡◌, refl, sym, ap, ◌∙◌, inl, inr, Bool, true, false, Option, none, some, List, [],
  ◌∷◌, String, arith, All, Bool-cases, if◌then◌else◌,
}
use golang_basics.Tasks.Domain.{Task, Cursor, cursor_after}
use golang_basics.Tasks.Store.Valid.{IsUnique, All-map}
use golang_basics.Tasks.Store.Pages.{row_lt, insert_desc, order_desc, rows_after, last_cursor}
use golang_basics.Tasks.Store.Pages.Order.{
  IsCollation, IsDesc, drop, row_lt_irrefl, row_lt_trans, rows_after-All, last_cursor-All,
  order_desc-IsDesc,
}

module _ (id_lt : String → String → Bool) (law : IsCollation id_lt) where
  insert_desc-front :
      (t : Task) (us : List Task)
      → All (λ u. row_lt id_lt (cursor_after t) (cursor_after u) ≡ false) us
      → insert_desc id_lt t us ≡ t ∷ us
  unfolding insert_desc
  insert_desc-front t [] h = refl
  insert_desc-front t (u ∷ us) (h, hs) = simp h refl

  -- No row below `u` is above a row that is not below `u`.
  not_above :
      (t u v : Cursor)
      → row_lt id_lt t u ≡ false
      → row_lt id_lt v u ≡ true
      → row_lt id_lt t v ≡ false
  not_above t u v h g = elim (Bool-cases (row_lt id_lt t v)) [
    | inl b ↦ absurd (true≢false (sym (row_lt_trans id_lt law t v u b g) ∙ h))
    | inr b ↦ b
  ]

  rows_after-insert :
      (c : Cursor) (t : Task) (us : List Task)
      → IsDesc id_lt us
      → rows_after id_lt (some c) (insert_desc id_lt t us) ≡ (
          if row_lt id_lt (cursor_after t) c
          then insert_desc id_lt t (rows_after id_lt (some c) us)
          else rows_after id_lt (some c) us)
  unfolding rows_after insert_desc
  rows_after-insert c t [] d = refl
  rows_after-insert c t (u ∷ us) (h, d) =
      elim (Bool-cases (row_lt id_lt (cursor_after t) (cursor_after u))) [
        | inl b ↦ ground (arith, rows_after-insert c t us d)
        | inr b ↦
            let front = insert_desc-front t (rows_after id_lt (some c) (u ∷ us)) (
              rows_after-All id_lt law (λ v. row_lt id_lt (cursor_after t) (cursor_after v) ≡ false)
                (some c) (u ∷ us)
                (
                  b,
                  All-map _ _ us
                      (λ v g. not_above (cursor_after t) (cursor_after u) (cursor_after v) b g) h,
                )) in
            simp b (
              ap
                (λ l.
                  if row_lt id_lt (cursor_after t) c then l else rows_after id_lt (some c) (u ∷ us))
                (sym front))
      ]

  -- The database may filter before or after it orders.
  pub order_desc-rows_after :
      (c : Option Cursor) (ts : List Task)
      → IsUnique ts
      → order_desc id_lt (rows_after id_lt c ts) ≡ rows_after id_lt c (order_desc id_lt ts)
  unfolding rows_after order_desc
  order_desc-rows_after none ts u = refl
  order_desc-rows_after (some c) [] u = refl
  order_desc-rows_after (some c) (t ∷ ts) (n, u) =
      let ih = order_desc-rows_after (some c) ts u in
      let r = rows_after-insert c t (order_desc id_lt ts) (order_desc-IsDesc id_lt law ts u) in
      elim (Bool-cases (row_lt id_lt (cursor_after t) c)) [
        | inl b ↦ simp b (ap (insert_desc id_lt t) ih ∙ sym (r ∙ simp b refl))
        | inr b ↦ simp b (ih ∙ sym (r ∙ simp b refl))
      ]

  row_lt-asym : (a b : Cursor) → row_lt id_lt a b ≡ true → row_lt id_lt b a ≡ false
  row_lt-asym a b h = not_above b b a (row_lt_irrefl id_lt law b) h

  rows_after-below :
      (c : Cursor) (ts : List Task)
      → All (λ t. row_lt id_lt (cursor_after t) c ≡ true) ts
      → rows_after id_lt (some c) ts ≡ ts
  unfolding rows_after
  rows_after-below c [] u = refl
  rows_after-below c (t ∷ ts) (h, u) = simp h (ap (λ l. t ∷ l) (rows_after-below c ts u))

  -- After the cursor of its n-th row, a descending list goes on where the first n end.
  pub rows_after-last :
      (n : ℕ) (ts : List Task) (c : Cursor)
      → IsDesc id_lt ts
      → last_cursor id_lt n ts ≡ some c
      → rows_after id_lt (some c) ts ≡ drop n ts
  unfolding rows_after last_cursor
  rows_after-last n [] c d h = ground arith
  rows_after-last zero (t ∷ ts) c d h = ground arith
  rows_after-last (suc zero) (t ∷ ts) c (b, d) h =
      let e : cursor_after t ≡ c = ground arith in
      ap (λ z. rows_after id_lt (some z) (t ∷ ts)) (sym e)
      ∙ simp (row_lt_irrefl id_lt law (cursor_after t)) (rows_after-below (cursor_after t) ts b)
  rows_after-last (suc (suc n)) (t ∷ ts) c (b, d) h =
      let (v, p, e) =
        last_cursor-All id_lt law (λ v. row_lt id_lt (cursor_after v) (cursor_after t) ≡ true)
          (suc n) ts c h b in
      simp (row_lt-asym c (cursor_after t) (ap (λ z. row_lt id_lt z (cursor_after t)) (sym e) ∙ p))
        (rows_after-last (suc n) ts c d h)

  -- A later cursor leaves what it leaves of the rows after an earlier one.
  pub rows_after_twice :
      (c c' : Cursor) (ts : List Task)
      → row_lt id_lt c' c ≡ true
      → rows_after id_lt (some c') (rows_after id_lt (some c) ts) ≡ rows_after id_lt (some c') ts
  unfolding rows_after
  rows_after_twice c c' [] h = refl
  rows_after_twice c c' (t ∷ ts) h = elim (Bool-cases (row_lt id_lt (cursor_after t) c)) [
    | inl b ↦ ground (arith, rows_after_twice c c' ts h)
    | inr b ↦
        ground (arith, rows_after_twice c c' ts h, row_lt_trans id_lt law (cursor_after t) c' c)
  ]

  pub rows_after-lt :
      (c : Cursor) (ts : List Task)
      → All (λ t. row_lt id_lt (cursor_after t) c ≡ true) (rows_after id_lt (some c) ts)
  unfolding rows_after
  rows_after-lt c [] = tt
  rows_after-lt c (t ∷ ts) = elim (Bool-cases (row_lt id_lt (cursor_after t) c)) [
    | inl b ↦ simp b (refl, rows_after-lt c ts)
    | inr b ↦ simp b (rows_after-lt c ts)
  ]

  pub rows_after-IsDesc :
      (c : Cursor) (ts : List Task) → IsDesc id_lt ts → IsDesc id_lt (rows_after id_lt (some c) ts)
  unfolding rows_after
  rows_after-IsDesc c [] d = tt
  rows_after-IsDesc c (t ∷ ts) (h, d) = elim (Bool-cases (row_lt id_lt (cursor_after t) c)) [
    | inl b ↦ simp b (
      rows_after-All id_lt law (λ u. row_lt id_lt (cursor_after u) (cursor_after t) ≡ true) (some c)
          ts h,
      rows_after-IsDesc c ts d,
    )
    | inr b ↦ simp b (rows_after-IsDesc c ts d)
  ]
