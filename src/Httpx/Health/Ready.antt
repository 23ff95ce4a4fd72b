-- ===== src/Httpx/Health/Ready.antt =====
-- libs/httpx/health.go: what /readyz answers, and how old the results are that it answers from.
use golang_basics.Base.{
  ℕ, ◌≤◌, ◌≡◌, ◌≢◌, ◌↔◌, ◌⊎◌, refl, sym, ap, ◌∙◌, inl, inr, Bool, true, false, Option, none, some,
  List, [], ◌∷◌, String, str_eq, eq_refl, eq_iff, All, All-map, IsIn, IsIn-All, ◌+◌, ◌*◌, arith,
  Bool-cases, subst,
}
use golang_basics.Tasks.Store.Rows.{str_ne}
use golang_basics.Httpx.Health.{
  Check, Result, Health, Run, find_check, find_result, delete_result, run_check, store_one,
  store_results, refresh, stale_limit, is_old, any_old, stale, snapshot, is_failing, failing,
  status_of, ready_handler,
}

status_of-503 : (f : Bool × Bool) → (status_of f).0 ≡ 503 → f.0 ≡ true
status_of-503 (true, o) h = refl
status_of-503 (false, true) h = ground arith
status_of-503 (false, false) h = ground arith

status_of-critical : (f : Bool × Bool) → f.0 ≡ true → (status_of f).0 ≡ 503
status_of-critical (true, o) h = refl
status_of-critical (false, o) h = ground arith

ne_str : {s t : String} → s ≢ t → str_eq s t ≡ false
ne_str {s} {t} ne = elim (Bool-cases (str_eq s t)) [
  | inl b ↦ absurd (ne ((eq_iff s t).0 b))
  | inr b ↦ b
]

find_check-found : (c : Check) (cs : List Check) → IsIn c cs → find_check c.name cs ≢ none
unfolding find_check
find_check-found c (d ∷ cs) (inl e) h =
    let same : str_eq d.name c.name ≡ true =
      ap (λ x. str_eq x.name c.name) (sym e) ∙ eq_refl c.name in
    ground (arith, same)
find_check-found c (d ∷ cs) (inr m) h = ground (arith, find_check-found c cs m)
find_check-found c [] m h = absurd m

find_check-All :
    (registered : List Check) → All (λ c. find_check c.name registered ≢ none) registered
find_check-All registered =
    IsIn-All (λ c. find_check c.name registered ≢ none) registered
      (λ c m. find_check-found c registered m)

module _ {E : Type 0} where
  -- A critical check whose last result is an error.
  abbrev pub IsCriticalFailure : List (String × Result E) → Check → Type 0
  IsCriticalFailure results c =
      (c.optional ≡ false) × (is_failing (find_result c.name results) ≡ true)

  failing-critical :
      (results : List (String × Result E)) (cs : List Check)
      → (failing results cs).0 ≡ true
      → (c : Check) × IsIn c cs × IsCriticalFailure results c
  unfolding failing
  failing-critical results [] h = ground arith
  failing-critical results (c ∷ cs) h =
      elim (Bool-cases (is_failing (find_result c.name results))) [
        | inr f ↦ let (d, m, p) = failing-critical results cs (ground arith) in (d, inr m, p)
        | inl f ↦ elim (Bool-cases c.optional) [
          | inr o ↦ (c, inl refl, (o, f))
          | inl o ↦ let (d, m, p) = failing-critical results cs (ground arith) in (d, inr m, p)
        ]
      ]

  critical-failing :
      (results : List (String × Result E)) (cs : List Check) (c : Check)
      → IsIn c cs
      → IsCriticalFailure results c
      → (failing results cs).0 ≡ true
  unfolding failing
  critical-failing results (d ∷ cs) c (inl e) (o, f) =
      let o' = ap (λ x. x.optional) (sym e) ∙ o in
      let f' = ap (λ x. is_failing (find_result x.name results)) (sym e) ∙ f in
      ground (arith, o', f')
  critical-failing results (d ∷ cs) c (inr m) p = ground (arith, critical-failing results cs c m p)
  critical-failing results [] c m p = absurd m

  -- Where its results need no refresh first, or after it, /readyz answers 503 exactly when the gate is
  -- closed or a critical check has a last result that is an error. A check without a result yet, such
  -- as one whose first evaluation still runs, passes.
  pub ready_handler-not_ready :
      (now : ℕ) (run : String → Run E) (h : Health E)
      → let h' = snapshot now run h in
        ((ready_handler now run h).0.0 ≡ 503)
        ↔ ((h.ready ≡ false) ⊎ ((c : Check) × IsIn c h'.checks × IsCriticalFailure h'.results c))
  unfolding ready_handler
  ready_handler-not_ready now run h =
      let h' = snapshot now run h in
      elim (Bool-cases h.ready) [
        | inr closed ↦ (λ e. inl closed, λ e. ground arith)
        | inl up ↦ (
          λ e. inr (
              failing-critical h'.results h'.checks
                (ground (arith, status_of-503 (failing h'.results h'.checks)))),
          λ e. elim e [
            | inl closed ↦ ground arith
            | inr (c, m, p) ↦ ground (
              arith,
              status_of-critical (failing h'.results h'.checks)
                  (critical-failing h'.results h'.checks c m p),
            )
          ],
        )
      ]

  -- What a refresh leaves of a name is no older than the refresh.
  abbrev IsFresh : ℕ → ℕ → String → List (String × Result E) → Type 0
  IsFresh limit now name rs = is_old limit now (find_result name rs) ≡ false

  find_result-delete :
      (name gone : String) (rs : List (String × Result E))
      → name ≢ gone
      → find_result name (delete_result gone rs) ≡ find_result name rs
  unfolding find_result delete_result
  find_result-delete name gone [] ne = refl
  find_result-delete name gone ((n, r) ∷ rs) ne = elim (Bool-cases (str_eq n gone)) [
    | inl b ↦ ground (
      arith,
      find_result-delete name gone rs ne,
      ne_str {s = n} {t = name} (λ e. ne (sym e ∙ (eq_iff n gone).0 b)),
    )
    | inr b ↦ ground (arith, find_result-delete name gone rs ne)
  ]

  run_check-fresh :
      (limit now : ℕ) (run : Run E)
      → now ≤ (run_check run).checked_at
      → is_old limit now (some (run_check run)) ≡ false
  run_check-fresh limit now run h = ground arith

  store_one-IsFresh_kept :
      (limit now : ℕ) (run : String → Run E) (name : String) (c : Check) (b : Bool)
      (o : Option Check) (rs : List (String × Result E))
      → ((n : String) → now ≤ (run_check (run n)).checked_at)
      → IsFresh limit now name rs
      → IsFresh limit now name (store_one run c b o rs)
  unfolding find_result
  store_one-IsFresh_kept limit now run name c true o rs later f = f
  store_one-IsFresh_kept limit now run name c false none rs later f = f
  store_one-IsFresh_kept limit now run name c false (some still) rs later f =
      elim (Bool-cases (str_eq c.name name)) [
        | inl b ↦ simp b (run_check-fresh limit now (run c.name) (later c.name))
        | inr b ↦ simp b (
            subst (λ o. is_old limit now o ≡ false)
              (sym (find_result-delete name c.name rs (λ e. str_ne b (sym e)))) f)
      ]

  store_results-IsFresh_kept :
      (limit now : ℕ) (run : String → Run E) (registered cs : List Check) (name : String)
      (rs : List (String × Result E))
      → ((n : String) → now ≤ (run_check (run n)).checked_at)
      → IsFresh limit now name rs
      → IsFresh limit now name (store_results run registered cs rs)
  unfolding store_results
  store_results-IsFresh_kept limit now run registered [] name rs later f = f
  store_results-IsFresh_kept limit now run registered (c ∷ cs) name rs later f =
      store_results-IsFresh_kept limit now run registered cs name _ later (
        store_one-IsFresh_kept limit now run name c c.running (find_check c.name registered) rs
          later f)

  store_results-IsFresh :
      (limit now : ℕ) (run : String → Run E) (registered cs : List Check)
      (rs : List (String × Result E))
      → ((n : String) → now ≤ (run_check (run n)).checked_at)
      → All (λ c. find_check c.name registered ≢ none) cs
      → All
          (λ c. c.running ≡ false → IsFresh limit now c.name (store_results run registered cs rs))
          cs
  unfolding store_results find_result
  store_results-IsFresh limit now run registered [] rs later k = tt
  store_results-IsFresh limit now run registered (c ∷ cs) rs later (k, ks) = (
    λ idle.
        store_results-IsFresh_kept limit now run registered cs c.name _ later
          (stored idle (find_check c.name registered) k),
    store_results-IsFresh limit now run registered cs _ later ks,
  )
    where
      stored :
          c.running ≡ false
          → (o : Option Check) → o ≢ none
          → IsFresh limit now c.name (store_one run c c.running o rs)
      stored idle none known = absurd (known refl)
      stored idle (some still) known =
          simp (idle, eq_refl c.name) (run_check-fresh limit now (run c.name) (later c.name))

  any_old-All :
      (limit now : ℕ) (rs : List (String × Result E)) (cs : List Check)
      → any_old limit now rs cs ≡ false
      → All (λ c. c.running ≡ false → IsFresh limit now c.name rs) cs
  unfolding any_old
  any_old-All limit now rs [] h = tt
  any_old-All limit now rs (c ∷ cs) h =
      (λ idle. ground arith, any_old-All limit now rs cs (ground arith))

  young_of :
      (limit now : ℕ) (o : Option (Result E))
      → is_old limit now o ≡ false
      → (r : Result E) × (o ≡ some r) × (now ≤ r.checked_at + limit)
  young_of limit now none h = ground arith
  young_of limit now (some r) h = (r, refl, ground arith)

  snapshot_young :
      (now : ℕ) (run : String → Run E) (h : Health E)
      → ((n : String) → now ≤ (run_check (run n)).checked_at)
      → All
          (λ c.
            c.running ≡ false
            → is_old (stale_limit h) now (find_result c.name (snapshot now run h).results) ≡ false)
          h.checks
  unfolding snapshot stale refresh
  snapshot_young now run h later = elim (Bool-cases (stale now h)) [
    | inr fresh ↦ simp fresh (any_old-All (stale_limit h) now h.results h.checks fresh)
    | inl old ↦ simp old (
        store_results-IsFresh (stale_limit h) now run h.checks h.checks h.results later
          (find_check-All h.checks))
  ]

  -- When evaluations end at or after the time of the probe: every check that was not running already
  -- has a result that /readyz answers from, no older than two intervals and the timeout.
  pub snapshot-fresh :
      (now : ℕ) (run : String → Run E) (h : Health E)
      → ((n : String) → now ≤ (run_check (run n)).checked_at)
      → All
          (λ c.
            c.running ≡ false
            → (r : Result E) × (find_result c.name (snapshot now run h).results ≡ some r)
              × (now ≤ r.checked_at + (2 * h.interval + h.timeout)))
          h.checks
  snapshot-fresh now run h later =
      All-map
        (λ c.
          c.running ≡ false
          → is_old (stale_limit h) now (find_result c.name (snapshot now run h).results) ≡ false)
        _ (λ c f idle. young_of (stale_limit h) now _ (f idle)) h.checks
        (snapshot_young now run h later)
