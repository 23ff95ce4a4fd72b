-- ===== src/Worker/Lru/Recent.antt =====
-- services/consumer/internal/worker/lru.go: it holds the most recent ids, each once.
use golang_basics.Base.{
  ℕ, zero, suc, ◌≤◌, ◌≡◌, refl, ap, ap₂, ◌∙◌, sym, subst, inl, inr, Bool, true, false, List, [],
  ◌∷◌, String, str_eq, eq_iff, eq_refl, length, take, if◌then◌else◌, Bool-cases, arith,
}
use golang_basics.Base.Int.{ℤ, pos, negsuc, neg_part, pos_part, ltb_ℤ}
use golang_basics.Worker.Lru.{Lru, has, remove, back, all_but_back, move_to_front, contains, add}

-- No id occurs twice.
unfoldable pub distinct : List String → Bool
distinct [] = true
distinct (x ∷ xs) = let rest = distinct xs in if has xs x then false else rest

-- The map has the ids of the list, which are distinct and at most `size`.
abbrev pub IsLru : Lru → Type 0
IsLru l =
    ((id : String) → has l.items id ≡ has l.order id)
    × (distinct l.order ≡ true)
    × (length l.order ≤ pos_part l.size)

has-remove :
    (xs : List String) (y z : String)
    → has (remove xs y) z ≡ (if str_eq y z then false else has xs z)
unfolding has remove
has-remove [] y z = ground arith
has-remove (x ∷ xs) y z =
    ground (arith, has-remove xs y z, eq_iff x y, eq_iff y z, eq_iff x z, eq_refl x)

distinct-remove :
    (xs : List String) (y : String) → distinct xs ≡ true → distinct (remove xs y) ≡ true
unfolding distinct remove
distinct-remove [] y d = refl
distinct-remove (x ∷ xs) y d = ground (arith, distinct-remove xs y, has-remove xs y x)

remove-absent : (xs : List String) (y : String) → has xs y ≡ false → remove xs y ≡ xs
unfolding has remove
remove-absent [] y h = refl
remove-absent (x ∷ xs) y h = ground (arith, remove-absent xs y)

length-remove :
    (xs : List String) (y : String)
    → has xs y ≡ true
    → distinct xs ≡ true
    → suc (length (remove xs y)) ≡ length xs
unfolding has remove distinct
length-remove [] y h d = ground arith
length-remove (x ∷ xs) y h d = ground (arith, length-remove xs y, remove-absent xs y, eq_iff x y)

all_but_back-take : (x : String) (xs : List String) → all_but_back x xs ≡ take (length xs) (x ∷ xs)
unfolding all_but_back
all_but_back-take x [] = refl
all_but_back-take x (y ∷ ys) = ap (λ zs. x ∷ zs) (all_but_back-take y ys)

take-length : (n : ℕ) (xs : List String) → length xs ≤ n → take n xs ≡ xs
take-length zero [] h = refl
take-length (suc n) [] h = refl
take-length (suc n) (x ∷ xs) h = ap (λ zs. x ∷ zs) (take-length n xs (omega (arith, h)))
take-length zero (x ∷ xs) h = ground arith

has-back : (x : String) (xs : List String) → has (x ∷ xs) (back x xs) ≡ true
unfolding has back
has-back x [] = ground (arith, eq_refl x)
has-back x (y ∷ ys) = ground (arith, has-back y ys)

back-new :
    (x : String) (xs : List String) (z : String)
    → has (x ∷ xs) z ≡ false
    → str_eq (back x xs) z ≡ false
back-new x xs z h = elim (Bool-cases (str_eq (back x xs) z)) [
  | inr e ↦ e
  | inl e ↦
      (let v : has (x ∷ xs) z ≡ true =
          subst (λ w. has (x ∷ xs) w ≡ true) ((eq_iff (back x xs) z).0 e) (has-back x xs) in
        ground (arith, v, h))
]

has-all_but_back :
    (x : String) (xs : List String) (z : String)
    → distinct (x ∷ xs) ≡ true
    → has (all_but_back x xs) z ≡ (if str_eq (back x xs) z then false else has (x ∷ xs) z)
unfolding has all_but_back back distinct
has-all_but_back x [] z d = ground (arith)
has-all_but_back x (y ∷ ys) z d = ground (
  arith,
  has-all_but_back y ys z,
  back-new y ys x,
  eq_iff x z,
  eq_iff (back y ys) x,
  eq_iff (back y ys) z,
)

distinct-all_but_back :
    (x : String) (xs : List String) → distinct (x ∷ xs) ≡ true → distinct (all_but_back x xs) ≡ true
unfolding has all_but_back distinct
distinct-all_but_back x [] d = refl
distinct-all_but_back x (y ∷ ys) d =
    ground (arith, distinct-all_but_back y ys, has-all_but_back y ys x)

length-all_but_back : (x : String) (xs : List String) → length (all_but_back x xs) ≡ length xs
unfolding all_but_back
length-all_but_back x [] = refl
length-all_but_back x (y ∷ ys) = ap suc (length-all_but_back y ys)

pub move_to_front-IsLru :
    (l : Lru) (id : String) → has l.items id ≡ true → IsLru l → IsLru (move_to_front id l)
unfolding has distinct
move_to_front-IsLru l id h (m, d, b) = (
  λ z. ground (arith, m z, m id, has-remove l.order id z, eq_iff id z),
  ground (arith, has-remove l.order id id, eq_refl id, distinct-remove l.order id d),
  omega (arith, b, length-remove l.order id (sym (m id) ∙ h) d),
)

-- The set stays the same when an id is looked up, and holds distinct ids, at most `size`, the same
-- in the list as in the map.
contains-IsLru :
    (l : Lru) (id : String)
    → IsLru l
    → IsLru (contains l id).0
      × ((contains l id).1 ≡ has l.order id)
      × ((z : String) → has (contains l id).0.order z ≡ has l.order z)
unfolding contains has
contains-IsLru l id (m, d, b) = elim (Bool-cases (has l.items id)) [
  | inl e ↦ simp e (
    move_to_front-IsLru l id e (m, d, b),
    sym e ∙ m id,
    λ z. ground (arith, has-remove l.order id z, eq_iff id z, e, m id),
  )
  | inr e ↦ simp e ((m, d, b), sym e ∙ m id, λ z. refl)
]

positive : (z : ℤ) → 1 ≤ pos_part z → neg_part z ≡ 0
positive (pos n) h = refl
positive (negsuc n) h = ground arith

-- In a well-formed set of at least one id: after an id is added, the list is that id followed by the others, most recent first, cut at
-- `size`: the id least recently added or looked up is the one that goes.
pub add-recent :
    (l : Lru) (id : String)
    → IsLru l
    → 1 ≤ pos_part l.size
    → IsLru (add l id) × ((add l id).order ≡ take (pos_part l.size) (id ∷ remove l.order id))
unfolding add has distinct
add-recent l id (m, d, b) h = elim (Bool-cases (has l.items id)) [
  | inl e ↦ simp e (
    move_to_front-IsLru l id e (m, d, b),
    sym (
        take-length (pos_part l.size) (id ∷ remove l.order id)
          (omega (arith, b, length-remove l.order id (sym (m id) ∙ e) d))),
  )
  | inr e ↦
      (let new : has l.order id ≡ false = sym (m id) ∙ e in
        let d' : distinct (id ∷ l.order) ≡ true = simp new d in
        let n = length l.order in
        elim (Bool-cases (ltb_ℤ l.size (pos (suc n)))) [
          | inl f ↦
              (let full : n ≡ pos_part l.size = ground (arith, positive l.size h, b, f) in
                simp (e, f)
                  (
                    (
                      λ z. ground (
                        arith,
                        has-remove (id ∷ l.items) (back id l.order) z,
                        has-all_but_back id l.order z d',
                        m z,
                      ),
                      distinct-all_but_back id l.order d',
                      omega (arith, length-all_but_back id l.order, b),
                    ),
                    all_but_back-take id l.order
                        ∙ ap₂ (λ k xs. take k (id ∷ xs)) full (sym (remove-absent l.order id new)),
                  ))
          | inr f ↦
              simp (e, f)
                (
                  (λ z. ground (arith, m z), d', ground (arith, positive l.size h, f)),
                  sym (
                      ap (λ xs. take (pos_part l.size) (id ∷ xs)) (remove-absent l.order id new)
                      ∙ take-length (pos_part l.size) (id ∷ l.order)
                          (ground (arith, positive l.size h, f))),
                )
        ])
]
