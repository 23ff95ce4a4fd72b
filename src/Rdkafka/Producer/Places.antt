-- ===== src/Rdkafka/Producer/Places.antt =====
-- libs/kafka-rdkafka/rdkafka.go: the places of the clients, which every step keeps.
use golang_basics.Base.{
  ℕ, suc, ◌+◌, ◌≡◌, ◌≢◌, refl, ap, inl, inr, Bool, true, false, List, [], ◌∷◌, ltb, ◌==◌, IsIn,
  Bool-cases, ==_iff, if◌then◌else◌, if-P, arith,
}
use golang_basics.Rdkafka.Producer.{
  Stage, is_open, closing, client_closed, returned, Producer, is_closed, remove, enter, leave,
  start_replace, replace, retire, begin_close, close_client, end_close,
}

abbrev pub count : ℕ → List ℕ → ℕ
count i [] = 0
count i (j ∷ js) = if j == i then suc (count i js) else count i js

-- 1 for the client in use, until Close has closed it.
abbrev pub in_use : ℕ → ℕ → Stage → ℕ
in_use i cl is_open = if cl == i then 1 else 0
in_use i cl closing = if cl == i then 1 else 0
in_use i cl client_closed = 0
in_use i cl returned = 0

-- Each client that was created is in one place, and calls are inside the one in use only.
pub record IsValid (p : Producer) : Type 0 where
  pub placed :
      (i : ℕ)
      → in_use i p.cl p.stage + count i p.retired + count i p.destroyed
        ≡ (if ltb i p.created then 1 else 0)
  pub inside : (i : ℕ) → i ≢ p.cl → count i p.calls ≡ 0
  pub free : is_closed p.stage ≡ true → p.calls ≡ []
  pub settled : p.stage ≡ returned → p.retired ≡ []

count-remove_of :
    (i j : ℕ) (xs : List ℕ)
    → IsIn i xs
    → count j (remove i xs) + (if i == j then 1 else 0) ≡ count j xs
unfolding remove
count-remove_of i j (x ∷ xs) (inl e) = ground arith
count-remove_of i j (x ∷ xs) (inr m) = ground (arith, count-remove_of i j xs m)
count-remove_of i j [] m = absurd m

pub in_use_by : (i cl : ℕ) (s u : Stage) → s ≡ u → in_use i cl s ≡ in_use i cl u
in_use_by i cl s u e = ap (in_use i cl) e

pub open_of : (s : Stage) → is_closed s ≡ false → s ≡ is_open
open_of is_open e = refl
open_of closing e = cc
open_of client_closed e = cc
open_of returned e = cc

no_member : (i : ℕ) (xs : List ℕ) → xs ≡ [] → IsIn i xs → ⊥
no_member i [] e m = m
no_member i (x ∷ xs) e m = cc

pub enter-IsValid : (p : Producer) → IsValid p → IsValid (enter p)
unfolding enter
enter-IsValid p v = elim (Bool-cases (is_closed p.stage)) [
  | inl c ↦ simp c v
  | inr c ↦ simp c (record {
    placed = v.placed;
    inside = λ i n. ground (arith, v.inside i);
    free = λ e. cc;
    settled = v.settled;
  })
]

pub leave-IsValid : (p : Producer) (i : ℕ) → IsIn i p.calls → IsValid p → IsValid (leave i p)
unfolding leave
leave-IsValid p i m v = record {
  placed = v.placed;
  inside = λ j n. omega (arith, count-remove_of i j p.calls m, v.inside j n);
  free = λ e. absurd (no_member i p.calls (v.free e) m);
  settled = v.settled;
}

pub start_replace-IsValid : (p : Producer) (i : ℕ) → IsValid p → IsValid (start_replace i p)
unfolding start_replace
start_replace-IsValid p i v = elim (Bool-cases (is_closed p.stage)) [
  | inl c ↦ simp c v
  | inr c ↦
      simp c (record { placed = v.placed; inside = v.inside; free = v.free; settled = v.settled })
]

swap-IsValid :
    (p : Producer) (f : ℕ)
    → p.cl ≡ f
    → p.stage ≡ is_open
    → p.calls ≡ []
    → IsValid p
    → IsValid (record p { cl = p.created; created = p.created + 1; retired = f ∷ p.retired })
swap-IsValid p f c o e v = record {
  placed = λ i. ground (
    arith,
    v.placed i,
    in_use_by i p.created p.stage is_open o,
    in_use_by i p.cl p.stage is_open o,
  );
  inside = λ i n. rw e refl;
  free = v.free;
  settled = λ r. cc;
}

pub retire-IsValid : (p : Producer) (i : ℕ) → IsIn i p.retired → IsValid p → IsValid (retire i p)
unfolding retire
retire-IsValid p i m v = record {
  placed = λ j. ground (arith, v.placed j, count-remove_of i j p.retired m);
  inside = v.inside;
  free = v.free;
  settled = λ r. absurd (no_member i p.retired (v.settled r) m);
}

pub begin_close-IsValid : (p : Producer) → p.calls ≡ [] → IsValid p → IsValid (begin_close p)
unfolding begin_close
begin_close-IsValid p e v = elim (Bool-cases (is_closed p.stage)) [
  | inl c ↦ simp c v
  | inr c ↦ simp c (record {
    placed = λ i. omega (arith, v.placed i, in_use_by i p.cl p.stage is_open (open_of p.stage c));
    inside = v.inside;
    free = λ u. e;
    settled = λ r. cc;
  })
]

pub close_client-IsValid : (p : Producer) → p.stage ≡ closing → IsValid p → IsValid (close_client p)
unfolding close_client
close_client-IsValid p e v = record {
  placed = λ i. ground (arith, v.placed i, in_use_by i p.cl p.stage closing e);
  inside = v.inside;
  free = λ c. v.free (rw e refl);
  settled = λ r. cc;
}

pub end_close-IsValid :
    (p : Producer) → p.stage ≡ client_closed → p.retired ≡ [] → IsValid p → IsValid (end_close p)
unfolding end_close
end_close-IsValid p e r v = record {
  placed = λ i. omega (arith, v.placed i, in_use_by i p.cl p.stage client_closed e);
  inside = v.inside;
  free = λ c. v.free (rw e refl);
  settled = λ s. r;
}

ended-IsValid : (p : Producer) (xs : List ℕ) → IsValid p → IsValid (record p { replacing = xs })
ended-IsValid p xs v = record {
  placed = v.placed;
  inside = v.inside;
  free = v.free;
  settled = v.settled;
}

pub replace-IsValid :
    (p : Producer) (ok : Bool) (i : ℕ) → p.calls ≡ [] → IsValid p → IsValid (replace ok i p)
unfolding replace
replace-IsValid p ok i e v =
    let kept = ended-IsValid p (remove i p.replacing) v in
    if-P IsValid (is_closed p.stage) _ _ (λ c. kept)
      (λ c.
        if-P IsValid (p.cl == i) _ _
          (λ same.
            if-P IsValid ok _ _
              (λ t.
                swap-IsValid (record p { replacing = remove i p.replacing }) i
                  ((==_iff p.cl i).0 same) (open_of p.stage c) e kept)
              (λ t. kept))
          (λ other. kept))
