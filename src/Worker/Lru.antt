-- ===== src/Worker/Lru.antt =====
-- services/consumer/internal/worker/lru.go: the last event ids.
pub mod Recent
pub mod Nearest
use golang_basics.Base.{
  ℕ, suc, Bool, true, false, List, [], ◌∷◌, String, str_eq, length, if◌then◌else◌,
}
use golang_basics.Base.Int.{ℤ, pos, ltb_ℤ}

-- `order` is the list, the most recent id first, and `items` the keys of the map.
pub record Lru : Type 0 where
  pub size : ℤ
  pub order : List String
  pub items : List String

unfoldable pub new_lru : ℤ → Lru
new_lru size = record { size = size; order = []; items = [] }

unfoldable pub has : List String → String → Bool
has [] id = false
has (x ∷ xs) id = if str_eq x id then true else has xs id

unfoldable pub remove : List String → String → List String
remove [] id = []
remove (x ∷ xs) id = let rest = remove xs id in if str_eq x id then rest else x ∷ rest

-- `order.Back()`, and the list without it.
unfoldable pub back : String → List String → String
back x [] = x
back x (y ∷ ys) = back y ys

unfoldable pub all_but_back : String → List String → List String
all_but_back x [] = []
all_but_back x (y ∷ ys) = x ∷ all_but_back y ys

abbrev pub move_to_front : String → Lru → Lru
move_to_front id l = record l { order = id ∷ remove l.order id }

unfoldable pub contains : Lru → String → Lru × Bool
contains l id = if has l.items id then (move_to_front id l, true) else (l, false)

unfoldable pub add : Lru → String → Lru
add l id =
    if has l.items id
    then move_to_front id l
    else if ltb_ℤ l.size (pos (suc (length l.order)))
    then record l {
      order = all_but_back id l.order;
      items = remove (id ∷ l.items) (back id l.order);
    }
    else record l { order = id ∷ l.order; items = id ∷ l.items }

unfoldable pub len : Lru → ℕ
len l = length l.order
