-- ===== src/Httpx/LogLevel/Reverts.antt =====
-- libs/httpx/loglevel.go: a change by the admin port reverts, and no older timer undoes it.
use golang_basics.Base.{
  ℕ, ◌+◌, ◌%◌, ◌^◌, ◌≤◌, ◌<◌, ◌≡◌, ◌≢◌, refl, sym, ◌∙◌, ◌⊎◌, inl, inr, false, Option, none, some,
  List, [], ◌∷◌, ◌==◌, All, IsIn, Option-cases, ==_iff, if-P, arith, lt→ltb, min,
}
use golang_basics.Base.Int.{ℤ, pos, negsuc}
use golang_basics.Httpx.LogLevel.{
  LogLevel, new_log_level, set_level, reset_level, revert, Put, put_log_level, fire, remove,
  call_back, Step, put, delete, fires, calls_back, Reach, here, next,
}

-- The newest callback is still to come: it will act.
abbrev pub IsPending : LogLevel → Type 0
IsPending l = (l.armed ≡ some l.gen) ⊎ IsIn l.gen l.waiting

record IsValid (base : ℤ) (l : LogLevel) : Type 0 where
  based : l.base ≡ base
  reverts : (l.level ≡ base) ⊎ ((l.expires ≢ none) × IsPending l)
  small : l.gen < 2 ^ 64
  old_timer : (g : ℕ) → l.armed ≡ some g → g ≤ l.gen
  old_waiting : All (λ g. g ≤ l.gen) l.waiting

All-le : (m n : ℕ) (xs : List ℕ) → m ≤ n → All (λ g. g ≤ m) xs → All (λ g. g ≤ n) xs
All-le m n [] h u = tt
All-le m n (x ∷ xs) h (p, u) = (omega arith, All-le m n xs h u)

gen_next : (l : LogLevel) → l.gen + 1 < 2 ^ 64 → (l.gen + 1) % 2 ^ 64 ≡ l.gen + 1
gen_next l h = omega arith

some-ne-none : {n : ℕ} → some n ≢ none
some-ne-none e = cc

some_inj : {m n : ℕ} → some m ≡ some n → m ≡ n
some_inj e = cc

le_of_some : {m n : ℕ} → some m ≡ some n → n ≤ m
le_of_some e = let k = some_inj e in omega arith

-- A change for a while.
set_level-IsValid :
    {base : ℤ} (l : LogLevel) (level : ℤ) (n now : ℕ)
    → 1 ≤ n
    → l.gen + 1 < 2 ^ 64
    → IsValid base l
    → IsValid base (set_level level (pos n) now l)
unfolding set_level
set_level-IsValid {base} l level n now pos_n h v =
    let t = lt→ltb 0 n (omega arith) in
    record {
      based = v.based;
      reverts = inr (λ e. some-ne-none (rw t at e), inl (rw t refl));
      small = omega arith;
      old_timer = λ g e. le_of_some (rw t at e);
      old_waiting = All-le l.gen ((l.gen + 1) % 2 ^ 64) l.waiting (omega arith) v.old_waiting;
    }

reset_level-IsValid :
    {base : ℤ} (l : LogLevel) (now : ℕ)
    → l.gen + 1 < 2 ^ 64
    → IsValid base l
    → IsValid base (reset_level now l)
unfolding set_level
reset_level-IsValid {base} l now h v = record {
  based = v.based;
  reverts = inl v.based;
  small = omega arith;
  old_timer = λ g e. cc;
  old_waiting = All-le l.gen ((l.gen + 1) % 2 ^ 64) l.waiting (omega arith) v.old_waiting;
}

fire-IsValid : {base : ℤ} (l : LogLevel) → IsValid base l → IsValid base (fire l)
unfolding fire
fire-IsValid {base} l v = elim (Option-cases l.armed) [
  | inl e ↦ rw (e, fire) v
  | inr (g, e) ↦
      rw (e, fire)
        (record {
          based = v.based;
          reverts = elim v.reverts [
            | inl b ↦ inl b
            | inr (x, inl p) ↦ inr (x, inr (inl (some_inj (sym p ∙ e))))
            | inr (x, inr m) ↦ inr (x, inr (inr m))
          ];
          small = v.small;
          old_timer = λ h x. absurd (some-ne-none (sym x));
          old_waiting = (v.old_timer g e, v.old_waiting);
        })
]

remove-All : (P : ℕ → Type 0) (g : ℕ) (xs : List ℕ) → All P xs → All P (remove g xs)
remove-All P g [] u = tt
remove-All P g (x ∷ xs) (p, u) =
    if-P (All P) (x == g) xs (x ∷ remove g xs) (λ e. u) (λ e. (p, remove-All P g xs u))

remove-IsIn : (g h : ℕ) (xs : List ℕ) → h ≢ g → IsIn h xs → IsIn h (remove g xs)
remove-IsIn g h (x ∷ xs) n m =
    if-P (IsIn h) (x == g) xs (x ∷ remove g xs)
      (λ e. elim m [ inl q ↦ absurd (n (q ∙ (==_iff x g).0 e)) | inr r ↦ r ])
      (λ e. elim m [ inl q ↦ inl q | inr r ↦ inr (remove-IsIn g h xs n r) ])
remove-IsIn g h [] n m = absurd m

call_back-IsValid :
    {base : ℤ} (l : LogLevel) (g : ℕ)
    → IsIn g l.waiting
    → IsValid base l
    → IsValid base (call_back g l)
unfolding call_back revert
call_back-IsValid {base} l g m v =
    if-P (IsValid base) (l.gen == g) _ _
      (λ e. record {
        based = v.based;
        reverts = inl v.based;
        small = v.small;
        old_timer = λ h x. absurd (some-ne-none (sym x));
        old_waiting = remove-All (λ h. h ≤ l.gen) g l.waiting v.old_waiting;
      })
      (λ e. record {
        based = v.based;
        reverts = elim v.reverts [
          | inl b ↦ inl b
          | inr (x, inl p) ↦ inr (x, inl p)
          | inr (x, inr k) ↦ inr (x, inr (remove-IsIn g l.gen l.waiting (ground arith) k))
        ];
        small = v.small;
        old_timer = v.old_timer;
        old_waiting = remove-All (λ h. h ≤ l.gen) g l.waiting v.old_waiting;
      })

put_log_level-IsValid :
    {base : ℤ} (cap_ttl : ℕ) (l : LogLevel) (level : Option ℤ) (ttl : Option (Option ℤ)) (now : ℕ)
    → 1 ≤ cap_ttl
    → l.gen + 1 < 2 ^ 64
    → IsValid base l
    → IsValid base (put_log_level cap_ttl level ttl now l).0
unfolding put_log_level
put_log_level-IsValid cap_ttl l none ttl now c h v = v
put_log_level-IsValid cap_ttl l (some level) none now c h v =
    set_level-IsValid l level cap_ttl now c h v
put_log_level-IsValid cap_ttl l (some level) (some none) now c h v = v
put_log_level-IsValid cap_ttl l (some level) (some (some (negsuc n))) now c h v = v
put_log_level-IsValid {base} cap_ttl l (some level) (some (some (pos n))) now c h v =
    if-P {A = LogLevel × Put} (λ x. IsValid base x.0) (n == 0) _ _ (λ e. v)
      (λ e. set_level-IsValid l level (min n cap_ttl) now (ground arith) h v)

Step-IsValid :
    {base : ℤ} {cap_ttl : ℕ} {l m : LogLevel}
    → 1 ≤ cap_ttl
    → Step cap_ttl l m
    → IsValid base l
    → IsValid base m
Step-IsValid {base} {cap_ttl} c (put l level ttl now h) v =
    put_log_level-IsValid cap_ttl l level ttl now c h v
Step-IsValid c (delete l now h) v = reset_level-IsValid l now h v
Step-IsValid c (fires l) v = fire-IsValid l v
Step-IsValid c (calls_back l g m) v = call_back-IsValid l g m v

Reach-IsValid :
    {base : ℤ} {cap_ttl : ℕ} {l m : LogLevel}
    → 1 ≤ cap_ttl
    → IsValid base l
    → Reach cap_ttl l m
    → IsValid base m
Reach-IsValid c v here = v
Reach-IsValid c v (next r s) = Step-IsValid c s (Reach-IsValid c v r)

new_log_level-IsValid : (base : ℤ) → IsValid base (new_log_level base)
new_log_level-IsValid base = record {
  based = refl;
  reverts = inl refl;
  small = omega arith;
  old_timer = λ g e. absurd (some-ne-none (sym e));
  old_waiting = tt;
}

-- An older callback than the newest change finds another generation.
old-ne : (l : LogLevel) (g : ℕ) (xs : List ℕ) → All (λ h. h ≤ l.gen) xs → IsIn g xs → g ≤ l.gen
old-ne l g (x ∷ xs) (p, u) (inl e) = omega arith
old-ne l g (x ∷ xs) (p, u) (inr m) = old-ne l g xs u m
old-ne l g [] u m = absurd m

-- A positive duration that the admin port is asked, cut at the cap.
asked_ttl :
    (cap_ttl n now : ℕ) (level : ℤ) (l : LogLevel)
    → 1 ≤ cap_ttl
    → 1 ≤ n
    → (put_log_level cap_ttl (some level) (some (some (pos n))) now l).0 ≡ record l {
      level = level;
      gen = (l.gen + 1) % 2 ^ 64;
      expires = some (now + min n cap_ttl);
      armed = some ((l.gen + 1) % 2 ^ 64);
    }
unfolding put_log_level set_level
asked_ttl cap_ttl n now level l c p =
    let t = lt→ltb 0 (min n cap_ttl) (omega arith) in
    let z : (n == 0) ≡ false = ground arith in rw (z, t) refl

-- With a cap of the ttl that is positive, whatever the admin port is asked, fewer than 2^64 times,
-- and whenever timers fire: a level other than that of the start has a time of its end, and the
-- callback that then sets the level of the start is armed or waits for the lock; a callback that waits
-- when the level is changed does not undo the change; and a change for n nanoseconds is to the level
-- asked, with its end at now and the smaller of n and the cap, its own callback armed, and the base
-- as it was.
pub level-reverts :
    {cap_ttl : ℕ} {l : LogLevel} (base : ℤ)
    → 1 ≤ cap_ttl
    → Reach cap_ttl (new_log_level base) l
    → ((l.level ≡ base) ⊎ ((l.expires ≢ none) × IsPending l))
      × ((revert l.gen l).level ≡ base)
      × ((level ttl : ℤ) (now g : ℕ)
          → l.gen + 1 < 2 ^ 64
          → IsIn g l.waiting
          → revert g (set_level level ttl now l) ≡ set_level level ttl now l)
      × ((level : ℤ) (n now : ℕ)
          → 1 ≤ n
          → (put_log_level cap_ttl (some level) (some (some (pos n))) now l).0 ≡ record l {
            level = level;
            gen = (l.gen + 1) % 2 ^ 64;
            expires = some (now + min n cap_ttl);
            armed = some ((l.gen + 1) % 2 ^ 64);
          })
unfolding revert set_level
level-reverts {cap_ttl = cap_ttl} {l = l} base c r =
    let v = Reach-IsValid c (new_log_level-IsValid base) r in
    (
      v.reverts,
      rw ((==_iff l.gen l.gen).1 refl) v.based,
      (λ level ttl now g h m.
          let le = old-ne l g l.waiting v.old_waiting m in
          let n : ((l.gen + 1) % 2 ^ 64 == g) ≡ false = ground arith in rw n refl),
      λ level n now p. asked_ttl cap_ttl n now level l c p,
    )
