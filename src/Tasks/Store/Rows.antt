-- ===== src/Tasks/Store/Rows.antt =====
-- services/tasks/migrations/001_init.sql: lemmas on the rows that a statement meets, leaves or removes.
use golang_basics.Base.{
  ℕ, ◌+◌, ltb, ◌≡◌, ◌≢◌, refl, sym, ◌∙◌, inl, inr, false, none, some, List, [], ◌∷◌, ◌++◌, String,
  str_eq, eq_iff, eq_refl, arith, All, Bool-cases, subst, if◌then◌else◌,
}
use golang_basics.Tasks.Domain.{Task}
use golang_basics.Tasks.Store.Tables.{
  KeyRow, find_task, set_task, remove_task, keys_without_task, young_keys, find_key,
}

pub str_ne : {s t : String} → str_eq s t ≡ false → s ≢ t
str_ne {s} {t} h e = ground (arith, eq_refl t)

module _ (P : Task → Type 0) where
  pub find_task-All :
      (id : String) (ts : List Task) (t : Task) → find_task id ts ≡ some t → All P ts → P t
  unfolding find_task
  find_task-All id [] t h u = ground arith
  find_task-All id (x ∷ ts) t h (p, ps) = elim (Bool-cases (str_eq x.id id)) [
    | inl b ↦ subst P (ground arith) p
    | inr b ↦ find_task-All id ts t (ground arith) ps
  ]

  pub set_task-All : (new : Task) (ts : List Task) → P new → All P ts → All P (set_task new ts)
  unfolding set_task
  set_task-All new [] p u = tt
  set_task-All new (x ∷ ts) p (q, qs) = elim (Bool-cases (str_eq x.id new.id)) [
    | inl b ↦ simp b (p, qs)
    | inr b ↦ simp b (q, set_task-All new ts p qs)
  ]

  pub remove_task-All : (id : String) (ts : List Task) → All P ts → All P (remove_task id ts)
  unfolding remove_task
  remove_task-All id [] u = tt
  remove_task-All id (x ∷ ts) (q, qs) = elim (Bool-cases (str_eq x.id id)) [
    | inl b ↦ simp b qs
    | inr b ↦ simp b (q, remove_task-All id ts qs)
  ]

module _ (P : KeyRow → Type 0) where
  pub keys_without_task-All :
      (id : String) (ks : List KeyRow)
      → All P ks
      → All (λ k. P k × (k.task_id ≢ id)) (keys_without_task id ks)
  unfolding keys_without_task
  keys_without_task-All id [] u = tt
  keys_without_task-All id (k ∷ ks) (q, qs) = elim (Bool-cases (str_eq k.task_id id)) [
    | inl b ↦ simp b (keys_without_task-All id ks qs)
    | inr b ↦ simp b ((q, λ e. str_ne b e), keys_without_task-All id ks qs)
  ]

  pub young_keys-All : (now ttl : ℕ) (ks : List KeyRow) → All P ks → All P (young_keys now ttl ks)
  unfolding young_keys
  young_keys-All now ttl [] u = tt
  young_keys-All now ttl (k ∷ ks) (q, qs) = elim (Bool-cases (ltb (k.created_at + ttl) now)) [
    | inl b ↦ simp b (young_keys-All now ttl ks qs)
    | inr b ↦ simp b (q, young_keys-All now ttl ks qs)
  ]

  pub find_key-All :
      (key : String) (ks : List KeyRow) (k : KeyRow) → find_key key ks ≡ some k → All P ks → P k
  unfolding find_key
  find_key-All key [] k h u = ground arith
  find_key-All key (x ∷ ks) k h (p, ps) = elim (Bool-cases (str_eq x.key key)) [
    | inl b ↦ subst P (ground arith) p
    | inr b ↦ find_key-All key ks k (ground arith) ps
  ]

-- The task of an id stays when another row changes.
pub find_task-append :
    (id : String) (ts us : List Task) → find_task id ts ≢ none → find_task id (ts ++ us) ≢ none
unfolding find_task
find_task-append id [] us h e = h refl
find_task-append id (x ∷ ts) us h e = elim (Bool-cases (str_eq x.id id)) [
  | inl b ↦ ground arith
  | inr b ↦ find_task-append id ts us (λ n. h (simp b n)) (ground arith)
]

pub find_task-set :
    (id : String) (new : Task) (ts : List Task)
    → find_task id ts ≢ none
    → find_task id (set_task new ts) ≢ none
unfolding find_task set_task
find_task-set id new [] h e = h refl
find_task-set id new (x ∷ ts) h e = elim (Bool-cases (str_eq x.id new.id)) [
  | inl a ↦
      let same : x.id ≡ new.id = (eq_iff x.id new.id).0 a in
      h (
        subst (λ i. (if str_eq i id then some x else find_task id ts) ≡ none) (sym same)
          (ground arith))
  | inr a ↦ elim (Bool-cases (str_eq x.id id)) [
    | inl b ↦ ground arith
    | inr b ↦ find_task-set id new ts (λ n. h (simp b n)) (ground arith)
  ]
]

pub find_task-remove :
    (id gone : String) (ts : List Task)
    → id ≢ gone
    → find_task id ts ≢ none
    → find_task id (remove_task gone ts) ≢ none
unfolding find_task remove_task
find_task-remove id gone [] ne h e = h refl
find_task-remove id gone (x ∷ ts) ne h e = elim (Bool-cases (str_eq x.id id)) [
  | inl b ↦ elim (Bool-cases (str_eq x.id gone)) [
    | inl a ↦ ne (sym ((eq_iff x.id id).0 b) ∙ (eq_iff x.id gone).0 a)
    | inr a ↦ ground arith
  ]
  | inr b ↦ elim (Bool-cases (str_eq x.id gone)) [
    | inl a ↦ h (simp b (ground arith))
    | inr a ↦ find_task-remove id gone ts ne (λ n. h (simp b n)) (ground arith)
  ]
]

-- An id that is not there is the id of no row.
pub find_task-none :
    (id : String) (ts : List Task) → find_task id ts ≡ none → All (λ t. t.id ≢ id) ts
unfolding find_task
find_task-none id [] h = tt
find_task-none id (x ∷ ts) h = elim (Bool-cases (str_eq x.id id)) [
  | inl b ↦ ground arith
  | inr b ↦ (str_ne b, find_task-none id ts (ground arith))
]
