-- ===== src/Worker/Lru/Nearest.antt =====
-- services/consumer/internal/worker/lru.go: how far a lookup or an addition pushes an id back.
use golang_basics.Base.{
  ℕ, zero, suc, ◌≤◌, ◌≡◌, refl, ap, ◌∙◌, inl, inr, true, false, List, [], ◌∷◌, String, str_eq,
  eq_iff, take, Bool-cases, arith,
}
use golang_basics.Base.Int.{pos_part}
use golang_basics.Worker.Lru.{Lru, has, remove, contains, add}
use golang_basics.Worker.Lru.Recent.{IsLru, add-recent, move_to_front-IsLru}

pub has-take : (n : ℕ) (xs : List String) (y : String) → has (take n xs) y ≡ true → has xs y ≡ true
unfolding has
has-take zero xs y h = ground arith
has-take (suc n) [] y h = ground arith
has-take (suc n) (x ∷ xs) y h = ground (arith, has-take n xs y)

has-take_more :
    (n : ℕ) (xs : List String) (y : String)
    → has (take n xs) y ≡ true
    → has (take (suc n) xs) y ≡ true
unfolding has
has-take_more zero xs y h = ground arith
has-take_more (suc n) [] y h = ground arith
has-take_more (suc n) (x ∷ xs) y h = ground (arith, has-take_more n xs y)

take-take : (n k : ℕ) (xs : List String) → n ≤ k → take n (take k xs) ≡ take n xs
take-take zero k xs h = refl
take-take (suc n) zero xs h = ground arith
take-take (suc n) (suc k) [] h = refl
take-take (suc n) (suc k) (x ∷ xs) h = ap (λ l. x ∷ l) (take-take n k xs (omega (arith, h)))

has-take-remove :
    (n : ℕ) (xs : List String) (x y : String)
    → str_eq x y ≡ false
    → has (take n xs) y ≡ true
    → has (take n (remove xs x)) y ≡ true
unfolding has remove
has-take-remove zero xs x y e h = h
has-take-remove (suc n) [] x y e h = h
has-take-remove (suc n) (z ∷ xs) x y e h = elim (Bool-cases (str_eq z x)) [
  | inl s ↦
      let same = ap (λ w. str_eq w y) ((eq_iff z x).0 s) ∙ e in
      simp s (has-take_more n (remove xs x) y (has-take-remove n xs x y e (simp same at h)))
  | inr s ↦ elim (Bool-cases (str_eq z y)) [
    | inl t ↦ simp (s, t) refl
    | inr t ↦ simp (s, t) (has-take-remove n xs x y e (simp t at h))
  ]
]

has-take_front :
    (n : ℕ) (xs : List String) (x y : String)
    → has (take n xs) y ≡ true
    → has (take (suc n) (x ∷ remove xs x)) y ≡ true
unfolding has
has-take_front n xs x y h = elim (Bool-cases (str_eq x y)) [
  | inl e ↦ simp e refl
  | inr e ↦ simp e (has-take-remove n xs x y e h)
]

-- The second set is well-formed and of the size of the first, and each id of the first is in it at most
-- one place further back.
pub record IsNear (l l' : Lru) : Type 0 where
  pub formed : IsLru l'
  pub sized : l'.size ≡ l.size
  pub moved :
      (n : ℕ) (y : String)
      → suc n ≤ pos_part l.size
      → has (take n l.order) y ≡ true
      → has (take (suc n) l'.order) y ≡ true

pub same-IsNear : (l : Lru) → IsLru l → IsNear l l
same-IsNear l v = record {
  formed = v;
  sized = refl;
  moved = λ n y h g. has-take_more n l.order y g;
}

pub contains-IsNear : (l : Lru) (x : String) → IsLru l → IsNear l (contains l x).0
unfolding contains
contains-IsNear l x v = elim (Bool-cases (has l.items x)) [
  | inl e ↦ simp e (record {
    formed = move_to_front-IsLru l x e v;
    sized = refl;
    moved = λ n y h g. has-take_front n l.order x y g;
  })
  | inr e ↦ simp e (same-IsNear l v)
]

size-add : (l : Lru) (x : String) → (add l x).size ≡ l.size
unfolding add
size-add l x = ground arith

pub add-IsNear : (l : Lru) (x : String) → IsLru l → 1 ≤ pos_part l.size → IsNear l (add l x)
add-IsNear l x v p =
    let (w, e) = add-recent l x v p in
    record {
      formed = w;
      sized = size-add l x;
      moved = λ n y h g.
          ap (λ o. has (take (suc n) o) y) e
          ∙ ap (λ o. has o y) (take-take (suc n) (pos_part l.size) (x ∷ remove l.order x) h)
          ∙ has-take_front n l.order x y g;
    }
