-- ===== src/Httpx/Request/Bounds.antt =====
-- libs/httpx/middleware.go: the deadline that a request may ask for, and its id.
use mathlib.Core.Bool.{and-eq-true_iff}
use golang_basics.Base.{
  ℕ, suc, ◌*◌, ◌^◌, ◌≤◌, ◌<◌, min, max, ◌≡◌, refl, ◌⊎◌, inl, inr, true, false, not, ◌||◌, ◌&&◌,
  List, [], ◌∷◌, ltb, ◌==◌, length, All, Bool-cases, if◌then◌else◌, arith,
}
use golang_basics.Base.Decimal.{
  decimal, digits, format_int, IsDigit, digits-IsDigit, decimal-digits, length-digits,
  length-digits_pos,
}
use golang_basics.Base.Int.{ℤ, pos}
use golang_basics.Httpx.Request.{
  all_printable, valid_request_id, hex, new_request_id, all_digits, millisecond, request_budget,
  Network, is_trusted, Incoming, Bytes, entry, client_ip, request_id_of, shorter, max_ℤ,
}

all_digits_of : (cs : List ℕ) → All IsDigit cs → all_digits cs ≡ true
unfolding all_digits
all_digits_of [] u = refl
all_digits_of (c ∷ cs) (d, ds) = rw d (all_digits_of cs ds)

-- A budget under the server's c (0 is none) and floor f: c itself, or a positive one within them.
abbrev pub IsGranted : ℕ → ℕ → ℤ → Type 0
IsGranted c f b = (b ≡ pos c) ⊎ ((n : ℕ) × (b ≡ pos n) × (1 ≤ n) × (f ≤ n) × ((c ≡ 0) ⊎ (n ≤ c)))

shorter-IsGranted :
    (c f ms : ℕ) → 1 ≤ ms → IsGranted c f (shorter (pos c) (max_ℤ (pos (ms * millisecond)) (pos f)))
shorter-IsGranted c f ms h = elim (Bool-cases (ltb 0 c && ltb c (max (ms * millisecond) f))) [
  | inl b ↦ inl (ground arith)
  | inr b ↦ inr (max (ms * millisecond) f, ground arith, ground arith, ground arith, ground arith)
]

request_budget-IsGranted :
    (c f : ℕ) (header : List ℕ) → IsGranted c f (request_budget (pos c) (pos f) header)
unfolding request_budget
request_budget-IsGranted c f [] = inl refl
request_budget-IsGranted c f (d ∷ ds) =
    elim (Bool-cases (false || ltb 9 (length (d ∷ ds)) || not (all_digits (d ∷ ds)))) [
      | inl b ↦ rw b (inl refl)
      | inr b ↦ elim (Bool-cases (decimal 0 (d ∷ ds) == 0)) [
        | inl z ↦ rw (b, z) (inl refl)
        | inr z ↦ rw (b, z) (shorter-IsGranted c f (decimal 0 (d ∷ ds)) (ground arith))
      ]
    ]

request_budget-digits :
    (c f ms : ℕ) (header : List ℕ)
    → 1 ≤ ms
    → 1 ≤ length header
    → length header ≤ 9
    → all_digits header ≡ true
    → decimal 0 header ≡ ms
    → request_budget (pos c) (pos f) header
      ≡ pos (if c == 0 then max (ms * millisecond) f else min c (max (ms * millisecond) f))
unfolding request_budget
request_budget-digits c f ms [] lo some few ds n = ground arith
request_budget-digits c f ms (d ∷ cs) lo some few ds n =
    let z : (ms == 0) ≡ false = ground arith in rw (ds, n, z) (ground arith)

-- A budget of the server is shortened by a caller who asks in decimal for at least a millisecond
-- and less than 10^9, never below the floor; without one the caller's holds, at least the floor.
-- Whatever a header says, the budget is the server's own or a positive one, not above it where it
-- has one and not below the floor.
request_budget-asked :
    (c f ms : ℕ) (header : List ℕ)
    → 1 ≤ ms
    → ms < 10 ^ 9
    → (request_budget (pos c) (pos f) (format_int ms)
        ≡ pos (if c == 0 then max (ms * millisecond) f else min c (max (ms * millisecond) f)))
      × IsGranted c f (request_budget (pos c) (pos f) header)
request_budget-asked c f ms header lo hi = (
  request_budget-digits c f ms (digits (suc ms) ms) lo (length-digits_pos ms ms)
      (length-digits 8 (suc ms) ms hi)
      (all_digits_of (digits (suc ms) ms) (digits-IsDigit (suc ms) ms))
      (decimal-digits (suc ms) ms (omega arith)),
  request_budget-IsGranted c f header,
)

all_printable-hex : (bs : List ℕ) → all_printable (hex bs) ≡ true
unfolding hex all_printable
all_printable-hex [] = refl
all_printable-hex (b ∷ bs) = ground (arith, all_printable-hex bs)

valid-new_request_id : (b : Bytes) → valid_request_id (new_request_id b) ≡ true
unfolding new_request_id valid_request_id hex
valid-new_request_id b =
    all_printable-hex (b.b0 ∷ (b.b1 ∷ (b.b2 ∷ (b.b3 ∷ (b.b4 ∷ (b.b5 ∷ (b.b6 ∷ (b.b7 ∷ []))))))))

request_id_of-valid :
    (net : Network) (r : Incoming net) (random : Bytes)
    → valid_request_id (request_id_of net r random) ≡ true
request_id_of-valid net r random =
    elim (Bool-cases (is_trusted net r.peer && valid_request_id r.request_id)) [
      | inl b ↦
          rw b ((and-eq-true_iff (is_trusted net r.peer) (valid_request_id r.request_id)).0 b).1
      | inr b ↦ rw b (valid-new_request_id random)
    ]

-- The request id is always valid, so that it can be echoed and logged, and a peer that is no trusted
-- proxy chooses neither it nor the client's address.
pub entry-id :
    (net : Network) (timeout floor : ℤ) (r : Incoming net) (random : Bytes)
    → (valid_request_id (entry net timeout floor r random).id ≡ true)
      × (is_trusted net r.peer ≡ false
          → ((entry net timeout floor r random).id ≡ new_request_id random)
            × ((entry net timeout floor r random).client_ip ≡ r.peer))
unfolding entry client_ip
entry-id net timeout floor r random =
    (request_id_of-valid net r random, λ u. (rw u refl, rw u refl))
