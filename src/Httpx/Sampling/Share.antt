-- ===== src/Httpx/Sampling/Share.antt =====
-- libs/httpx/sampling.go: how many records of a burst pass.
use golang_basics.Base.{
  ℕ, suc, ◌+◌, ◌-◌, ◌*◌, ◌/◌, ◌%◌, ◌^◌, ◌≤◌, ◌<◌, min, ◌≡◌, refl, ap, ◌∙◌, ◌⊎◌, inl, inr, Bool,
  true, false, ◌||◌, ◌&&◌, List, [], ◌∷◌, String, leb, ◌==◌, ==_iff, leb→le, if◌then◌else◌, arith,
  All, length, Bool-cases,
}
use golang_basics.Httpx.Sampling.{
  inc, SamplingHandler, Record, time_of, is_sampled, slot, handle, handle_all,
}
use native.Mathlib.Nat.{div-eq_of_lt-le, mod-add-div', mod-lt, add-mul, zero-div}

-- Of k records, the first `i` pass and then every t-th.
abbrev pub share : ℕ → ℕ → ℕ → ℕ
share i t k = min k i + (k - i) / t

mul_of : (a b t : ℕ) → a ≡ b → a * t ≡ b * t
mul_of a b t e = ap (λ (x : ℕ). x * t) e

-- A division steps up where the remainder comes back to 0.
div-suc : (m t : ℕ) → 1 ≤ t → (m + 1) / t ≡ m / t + (if (m + 1) % t == 0 then 1 else 0)
div-suc m t h =
    let low = mod-add-div' m t in
    let high = mod-add-div' (m + 1) t in
    let below = mod-lt m {m = t} (omega arith) in
    let below' = mod-lt (m + 1) {m = t} (omega arith) in
    elim (Bool-cases (leb t (m % t + 1))) [
      | inl full ↦
          let q : (m + 1) / t ≡ m / t + 1 =
            div-eq_of_lt-le t (omega (arith, leb→le t (m % t + 1) full, add-mul (m / t) 1 t))
              (omega (arith, add-mul (m / t) 1 t, add-mul (m / t + 1) 1 t)) in
          let e : (m + 1) % t ≡ 0 = omega (
            arith,
            mul_of ((m + 1) / t) (m / t + 1) t q,
            add-mul (m / t) 1 t,
            leb→le t (m % t + 1) full,
          ) in
          rw ((==_iff ((m + 1) % t) 0).1 e) q
      | inr more ↦
          let q : (m + 1) / t ≡ m / t + 0 =
            div-eq_of_lt-le t (omega (arith, add-mul (m / t) 0 t))
              (ground (arith, add-mul (m / t) 0 t, add-mul (m / t + 0) 1 t)) in
          let e : (m + 1) % t ≡ m % t + 1 =
            omega (arith, mul_of ((m + 1) / t) (m / t + 0) t q, add-mul (m / t) 0 t) in
          ground arith
    ]

share-suc :
    (i t k : ℕ)
    → 1 ≤ t
    → share i t (k + 1) ≡ share i t k + (if leb (k + 1) i || ((k + 1 - i) % t == 0) then 1 else 0)
share-suc i t k h = elim (Bool-cases (leb (k + 1) i)) [
  | inl le ↦ ground arith
  | inr gt ↦
      let e : k + 1 - i ≡ k - i + 1 = ground arith in
      rw (e, gt) (ground (arith, div-suc (k - i) t h))
]

share-zero : (i t : ℕ) → share i t 0 ≡ 0
share-zero i t = ground (arith, zero-div t)

-- The records that sampling leaves alone: warnings, errors and what is debugged on purpose.
abbrev pub left_alone : List Record → ℕ
left_alone [] = 0
left_alone (r ∷ rs) = if is_sampled r then left_alone rs else suc (left_alone rs)

module _ (fnv : String → ℕ) (s : ℕ) where
  abbrev pub counts : Record → Bool
  counts r = is_sampled r && (slot fnv r == s)

  -- The records that sampling counts in the slot.
  abbrev pub counted_in : List Record → ℕ
  counted_in [] = 0
  counted_in (r ∷ rs) = if counts r then suc (counted_in rs) else counted_in rs

  -- The slot after k of them: untouched, or within their window.
  record IsCounting (first k : ℕ) (h : SamplingHandler) : Type 0 where
    place :
        ((k ≡ 0) × ((h.counters s).reset_at ≤ first))
        ⊎ ((0 < k) × (first + h.tick ≤ (h.counters s).reset_at) × ((h.counters s).n ≡ k))
    steady : 1 ≤ h.thereafter

  IsWithin : ℕ → ℕ → Record → Type 0
  IsWithin first tick r = (first ≤ time_of r) × (time_of r < first + tick)

  -- What the slot counts next.
  inc-counts :
      (first k now : ℕ) (h : SamplingHandler)
      → k + 1 < 2 ^ 64
      → first ≤ now
      → now < first + h.tick
      → IsCounting first k h
      → ((inc now h.tick (h.counters s)).n ≡ suc k)
        × (first + h.tick ≤ (inc now h.tick (h.counters s)).reset_at)
  unfolding inc
  inc-counts first k now h small lo hi v = ground arith

  handle-IsCounting :
      (first k : ℕ) (h : SamplingHandler) (r : Record)
      → k + 1 < 2 ^ 64
      → first ≤ time_of r
      → time_of r < first + h.tick
      → IsCounting first k h
      → IsCounting first (if counts r then suc k else k) (handle fnv h r).0
  unfolding handle
  handle-IsCounting first k h r small lo hi v =
      let (n, at) = inc-counts first k (time_of r) h small lo hi v in ground arith

  handle-share :
      (first k : ℕ) (h : SamplingHandler) (r : Record)
      → k + 1 < 2 ^ 64
      → first ≤ time_of r
      → time_of r < first + h.tick
      → IsCounting first k h
      → counts r ≡ true
      → share h.initial h.thereafter (k + 1)
        ≡ share h.initial h.thereafter k + (if (handle fnv h r).1 then 1 else 0)
  unfolding handle
  handle-share first k h r small lo hi v c =
      let (n, at) = inc-counts first k (time_of r) h small lo hi v in
      let same = share-suc h.initial h.thereafter k v.steady in ground arith

  handle-keeps :
      (h : SamplingHandler) (r : Record)
      → ((handle fnv h r).0.initial ≡ h.initial)
        × ((handle fnv h r).0.thereafter ≡ h.thereafter)
        × ((handle fnv h r).0.tick ≡ h.tick)
  unfolding handle
  handle-keeps h r = ground arith

  handle-unsampled :
      (h : SamplingHandler) (r : Record) → is_sampled r ≡ false → (handle fnv h r).1 ≡ true
  unfolding handle
  handle-unsampled h r e = rw e

  counted_in-if :
      (b : Bool) (r : Record) (rs : List Record)
      → counted_in (if b then r ∷ rs else rs)
        ≡ (if counts r then (if b then 1 else 0) else 0) + counted_in rs
  counted_in-if true r rs = ground arith
  counted_in-if false r rs = ground arith

  left_alone-if :
      (b : Bool) (r : Record) (rs : List Record)
      → (is_sampled r ≡ false → b ≡ true)
      → left_alone (if b then r ∷ rs else rs)
        ≡ (if is_sampled r then left_alone rs else suc (left_alone rs))
  left_alone-if true r rs f = refl
  left_alone-if false r rs f = ground (arith, f)

  handle_all-left_alone :
      (h : SamplingHandler) (rs : List Record) → left_alone (handle_all fnv h rs).1 ≡ left_alone rs
  unfolding handle_all
  handle_all-left_alone h [] = refl
  handle_all-left_alone h (r ∷ rs) =
      let rest = handle_all-left_alone (handle fnv h r).0 rs in
      left_alone-if (handle fnv h r).1 r (handle_all fnv (handle fnv h r).0 rs).1
        (handle-unsampled h r)
      ∙ (ground arith)

  handle_all-share :
      (first k i t w : ℕ) (h : SamplingHandler) (rs : List Record)
      → h.initial ≡ i
      → h.thereafter ≡ t
      → h.tick ≡ w
      → IsCounting first k h
      → All (λ r. (first ≤ time_of r) × (time_of r < first + w)) rs
      → k + length rs < 2 ^ 64
      → share i t k + counted_in (handle_all fnv h rs).1 ≡ share i t (k + counted_in rs)
  unfolding handle_all
  handle_all-share first k i t w h [] ei et ew v a small =
      let e : k + 0 ≡ k = omega arith in rw e (omega arith)
  handle_all-share first k i t w h (r ∷ rs) ei et ew v (u, a) small =
      let (ki, kt, kw) = handle-keeps h r in
      let low : time_of r < first + h.tick = rw ew u.1 in
      let next = handle-IsCounting first k h r (omega arith) u.0 low v in
      let split = counted_in-if (handle fnv h r).1 r (handle_all fnv (handle fnv h r).0 rs).1 in
      elim (Bool-cases (counts r)) [
        | inl c ↦
            let k' : k + 1 ≡ suc k = omega arith in
            let step = rw (ei, et, k') at (handle-share first k h r (omega arith) u.0 low v c) in
            let ih =
              handle_all-share first (suc k) i t w (handle fnv h r).0 rs (ki ∙ ei) (kt ∙ et)
                (kw ∙ ew) (rw c at next) a (omega arith) in
            let moved : suc k + counted_in rs ≡ k + suc (counted_in rs) = omega arith in
            rw c (rw (← moved) (ground (arith, split)))
        | inr c ↦
            let ih =
              handle_all-share first k i t w (handle fnv h r).0 rs (ki ∙ ei) (kt ∙ et) (kw ∙ ew)
                (rw c at next) a (omega arith) in
            rw c (ground (arith, split))
      ]

-- Of the records of one slot that come within one tick after the slot's window has ended, fewer
-- than 2^64, as many pass as sampling promises: `initial`, and one for every `thereafter` of the
-- others, whatever records of other slots come between. What is not sampled all passes.
pub sampled-share :
    (fnv : String → ℕ) (s first : ℕ) (h : SamplingHandler) (rs : List Record)
    → 1 ≤ h.thereafter
    → (h.counters s).reset_at ≤ first
    → All (λ r. (first ≤ time_of r) × (time_of r < first + h.tick)) rs
    → length rs < 2 ^ 64
    → (counted_in fnv s (handle_all fnv h rs).1
        ≡ share h.initial h.thereafter (counted_in fnv s rs))
      × (left_alone (handle_all fnv h rs).1 ≡ left_alone rs)
sampled-share fnv s first h rs pos expired a small =
    let m =
      handle_all-share fnv s first 0 h.initial h.thereafter h.tick h rs refl refl refl
        (record { place = inl (refl, expired); steady = pos }) a (omega arith) in
    let z = share-zero h.initial h.thereafter in
    let n : 0 + counted_in fnv s rs ≡ counted_in fnv s rs = omega arith in
    (omega (arith, rw (n, z) at m), handle_all-left_alone fnv s h rs)
