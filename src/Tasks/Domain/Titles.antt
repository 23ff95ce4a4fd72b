-- ===== src/Tasks/Domain/Titles.antt =====
-- services/tasks/internal/domain/task.go: what a normalized title is.
use mathlib.Core.List.{reverse-append, reverse-reverse, reverse-cons}
use golang_basics.Base.{
  ok, ℕ, ◌≡◌, refl, sym, ap, ◌∙◌, inl, inr, ◌⊎◌, true, false, none, List, [], ◌∷◌, ◌++◌, reverse,
  length, ◌≤◌, ◌≢◌, ltb, subst, is_space, trim_left, trim_space, Bool-cases, Option-cases, arith,
  All,
}
use golang_basics.Tasks.Domain.{
  check_title, normalize_title, is_valid_utf8, bad_rune, is_control, max_rune,
}

pub trim_left-append :
    (xs : List ℕ) (c : ℕ)
    → is_space c ≡ false
    → trim_left (xs ++ (c ∷ [])) ≡ trim_left xs ++ (c ∷ [])
unfolding trim_left
trim_left-append [] c h = ground arith
trim_left-append (x ∷ xs) c h = ground (arith, trim_left-append xs c h)

-- What `trim_left` leaves is empty or begins with a rune that is no space.
trim_left-cases :
    (xs : List ℕ)
    → (trim_left xs ≡ [])
      ⊎ ((c : ℕ) × (cs : List ℕ) × (is_space c ≡ false) × (trim_left xs ≡ c ∷ cs))
unfolding trim_left
trim_left-cases [] = inl refl
trim_left-cases (x ∷ xs) = elim (Bool-cases (is_space x)) [
  | inl e ↦ simp e (trim_left-cases xs)
  | inr e ↦ inr (x, xs, e, simp e refl)
]

trim_left_idem : (xs : List ℕ) → trim_left (trim_left xs) ≡ trim_left xs
unfolding trim_left
trim_left_idem [] = refl
trim_left_idem (x ∷ xs) = ground (arith, trim_left_idem xs)

-- A list that begins with no space is trimmed at its end only.
pub trim_space_no_space :
    (c : ℕ) (cs : List ℕ)
    → is_space c ≡ false
    → trim_space (c ∷ cs) ≡ c ∷ reverse (trim_left (reverse cs))
unfolding trim_left trim_space
trim_space_no_space c cs h =
    simp (h, reverse-cons c cs, trim_left-append (reverse cs) c h)
      (reverse-append (trim_left (reverse cs)) (c ∷ []))

trim_space_idem : (s : List ℕ) → trim_space (trim_space s) ≡ trim_space s
unfolding trim_left trim_space
trim_space_idem s = elim (trim_left-cases s) [
  | inl e ↦ let t : trim_space s ≡ [] = simp e refl in ap trim_space t ∙ sym t
  | inr (c, cs, h, e) ↦
      let v = trim_left (reverse cs) in
      let t : trim_space s ≡ c ∷ reverse v =
        simp (e, reverse-cons c cs, trim_left-append (reverse cs) c h)
          (reverse-append v (c ∷ [])) in
      ap trim_space t
      ∙ trim_space_no_space c (reverse v) h
      ∙ ap (λ l. c ∷ reverse l) (ap trim_left (reverse-reverse v) ∙ trim_left_idem (reverse cs))
      ∙ sym t
]

-- The rules a stored title obeys.
abbrev IsRune : ℕ → Type 0
IsRune c = (c ≤ max_rune) × (c ≢ 0) × (is_control c ≡ false)

abbrev pub IsTitle : List ℕ → Type 0
IsTitle t = (1 ≤ length t) × (length t ≤ 200) × All IsRune t

IsRune-All : (t : List ℕ) → is_valid_utf8 t ≡ true → bad_rune t ≡ none → All IsRune t
unfolding is_valid_utf8 bad_rune
IsRune-All [] v h = tt
IsRune-All (c ∷ cs) v h =
    ((ground arith, ground arith, ground arith), IsRune-All cs (ground arith) (ground arith))

check_title-IsTitle : (t t' : List ℕ) → check_title t ≡ ok t' → IsTitle t' × (t' ≡ t)
unfolding check_title
check_title-IsTitle [] t' h = ground arith
check_title-IsTitle (c ∷ cs) t' h = elim (Option-cases (bad_rune (c ∷ cs))) [
  | inr (x, b) ↦ ground arith
  | inl b ↦
      let v : is_valid_utf8 (c ∷ cs) ≡ true = ground arith in
      let l : ltb 200 (length (c ∷ cs)) ≡ false = ground arith in
      let e : t' ≡ c ∷ cs = ground arith in
      (subst (λ t. IsTitle t) (sym e) (omega arith, ground arith, IsRune-All (c ∷ cs) v b), e)
]

-- A title that `NormalizeTitle` returns has 1 to 200 runes, each of them a rune of valid UTF-8,
-- neither NUL nor another control character but the tab; and normalizing it again returns it.
normalize_title-IsTitle :
    (s t : List ℕ) → normalize_title s ≡ ok t → IsTitle t × (normalize_title t ≡ ok t)
unfolding normalize_title
normalize_title-IsTitle s t h =
    let (v, e) = check_title-IsTitle (trim_space s) t h in
    (v, ap (λ r. check_title (trim_space r)) e ∙ ap check_title (trim_space_idem s) ∙ h)
