-- ===== src/Base/Decimal.antt =====
-- Decimal texts, as lists of runes: digits, the number that they stand for, and a number's digits.
use native.Mathlib.Nat.{pow-suc}
use Prim.Native.Nat.{ℕ, zero, suc, ◌+◌, ◌*◌, ◌-◌, ◌/◌, ◌%◌, ◌^◌, ◌≤◌, ◌<◌}
use mathlib.Core.Path.{◌≡◌, refl}
use mathlib.Core.Logic.{inl, inr}
use mathlib.Core.Bool.{Bool, true, ◌&&◌}
use mathlib.Core.List.{List, [], ◌∷◌, ◌++◌}
use native.Mathlib.Omega.{arith}
use golang_basics.Base.Tests.{ltb, leb, if◌then◌else◌, Bool-cases}
use golang_basics.Base.Lists.{length, length-append, All, All-append}

abbrev pub is_digit : ℕ → Bool
is_digit c = leb b'0' c && leb c b'9'

-- The number that decimal digits stand for, after `n`.
abbrev pub decimal : ℕ → List ℕ → ℕ
decimal n [] = n
decimal n (c ∷ cs) = decimal (n * 10 + (c - b'0')) cs

-- strconv.FormatInt(n, 10), on fuel: a number has at most as many digits as it is large.
unfoldable pub digits : ℕ → ℕ → List ℕ
digits zero n = []
digits (suc fuel) n =
    let front = digits fuel (n / 10) in
    if ltb n 10 then (b'0' + n) ∷ [] else front ++ ((b'0' + n % 10) ∷ [])

abbrev pub format_int : ℕ → List ℕ
format_int n = digits (suc n) n

abbrev pub IsDigit : ℕ → Type 0
IsDigit c = is_digit c ≡ true

pub digits-IsDigit : (fuel n : ℕ) → All IsDigit (digits fuel n)
unfolding digits
digits-IsDigit zero n = tt
digits-IsDigit (suc fuel) n = elim (Bool-cases (ltb n 10)) [
  | inl b ↦ simp b (ground arith, tt)
  | inr b ↦ simp b (
      All-append IsDigit (digits fuel (n / 10)) ((b'0' + n % 10) ∷ [])
        (digits-IsDigit fuel (n / 10)) (ground arith, tt))
]

decimal-append :
    (n : ℕ) (cs : List ℕ) (c : ℕ) → decimal n (cs ++ (c ∷ [])) ≡ decimal n cs * 10 + (c - b'0')
decimal-append n [] c = refl
decimal-append n (d ∷ cs) c = decimal-append (n * 10 + (d - b'0')) cs c

-- Enough fuel gives the number back.
pub decimal-digits : (fuel n : ℕ) → n < fuel → decimal 0 (digits fuel n) ≡ n
unfolding digits
decimal-digits zero n h = ground arith
decimal-digits (suc fuel) n h = elim (Bool-cases (ltb n 10)) [
  | inl b ↦ simp b (omega arith)
  | inr b ↦
      let ih = decimal-digits fuel (n / 10) (ground arith) in
      simp b (omega (arith, decimal-append 0 (digits fuel (n / 10)) (b'0' + n % 10), ih))
]

pub length-digits : (k fuel n : ℕ) → n < 10 ^ suc k → length (digits fuel n) ≤ suc k
unfolding digits
length-digits k zero n h = omega arith
length-digits zero (suc fuel) n h = ground arith
length-digits (suc k) (suc fuel) n h = elim (Bool-cases (ltb n 10)) [
  | inl b ↦ simp b (omega arith)
  | inr b ↦
      let ih = length-digits k fuel (n / 10) (omega (arith, h, pow-suc 10 (suc k))) in
      simp b (omega (arith, length-append (digits fuel (n / 10)) ((b'0' + n % 10) ∷ []), ih))
]

pub length-digits_pos : (fuel n : ℕ) → 1 ≤ length (digits (suc fuel) n)
unfolding digits
length-digits_pos fuel n =
    ground (arith, length-append (digits fuel (n / 10)) ((b'0' + n % 10) ∷ []))
