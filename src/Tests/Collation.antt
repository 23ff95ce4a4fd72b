-- ===== src/Tests/Collation.antt =====
-- An order of texts by their runes: a collation to run the store's pages with.
use Prim.Native.Char.{code}
use Prim.Native.String.{String}
use text.Mathlib.TextEquality.{codes_equal}
use text.Mathlib.TextPositions.{compare_self}
use Prim.Native.Nat.{Ordering, compare}
use golang_basics.Base.{
  subst, ==_iff, ◌≡◌, ◌≢◌, refl, ap₂, inl, inr, Bool, true, false, ltb, ◌==◌, if◌then◌else◌, arith,
  Bool-cases,
}
use golang_basics.Tasks.Store.Pages.Order.{IsCollation}

unfoldable pub text_lt : String → String → Bool
text_lt s String.[] = false
text_lt String.[] (String.◌∷◌ d t) = true
text_lt (String.◌∷◌ c s) (String.◌∷◌ d t) =
    let rest = text_lt s t in
    if ltb (code c) (code d) then true else if code c == code d then rest else false

text_lt_irrefl : (s : String) → text_lt s s ≡ false
unfolding text_lt
text_lt_irrefl String.[] = refl
text_lt_irrefl (String.◌∷◌ c s) = ground (arith, text_lt_irrefl s)

text_lt_trans : (s t u : String) → text_lt s t ≡ true → text_lt t u ≡ true → text_lt s u ≡ true
unfolding text_lt
text_lt_trans String.[] String.[] u h g = ground arith
text_lt_trans String.[] (String.◌∷◌ d t) String.[] h g = ground arith
text_lt_trans String.[] (String.◌∷◌ d t) (String.◌∷◌ e u) h g = refl
text_lt_trans (String.◌∷◌ c s) String.[] u h g = ground arith
text_lt_trans (String.◌∷◌ c s) (String.◌∷◌ d t) String.[] h g = ground arith
text_lt_trans (String.◌∷◌ c s) (String.◌∷◌ d t) (String.◌∷◌ e u) h g =
    ground (arith, text_lt_trans s t u)

text_lt-total : (s t : String) → s ≢ t → text_lt s t ≡ false → text_lt t s ≡ true
unfolding text_lt
text_lt-total String.[] String.[] ne h = absurd (ne refl)
text_lt-total String.[] (String.◌∷◌ d t) ne h = ground arith
text_lt-total (String.◌∷◌ c s) String.[] ne h = refl
text_lt-total (String.◌∷◌ c s) (String.◌∷◌ d t) ne h = elim (Bool-cases (code c == code d)) [
  | inr b ↦ ground arith
  | inl b ↦ ground (
    arith,
    text_lt-total s t (λ e. ne (
        ap₂ (λ c s. String.◌∷◌ c s)
          (codes_equal c d (
            subst (λ n. compare (code c) n ≡ Ordering.eq) ((==_iff (code c) (code d)).0 b)
              (compare_self (code c))))
          e)),
  )
]

pub text_lt-IsCollation : IsCollation text_lt
text_lt-IsCollation = record {
  irrefl = text_lt_irrefl;
  trans = text_lt_trans;
  total = text_lt-total;
}
