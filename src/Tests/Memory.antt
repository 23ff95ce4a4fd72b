-- ===== src/Tests/Memory.antt =====
-- A server of keys in memory: GET, SET and DEL as their documentation has them.
use golang_basics.Base.{
  ℕ, ◌+◌, ◌≡◌, ◌≢◌, refl, sym, ap, inl, inr, Bool, true, false, Option, none, some, String, str_eq,
  eq_refl, eq_iff, ltb, lt→ltb, if◌then◌else◌, Bool-cases,
}
use golang_basics.Valkey.Server.{Server, IsServer}

-- A value, and when it expires.
abbrev pub Memory : Type 0
Memory = String → Option (String × Option ℕ)

abbrev alive : ℕ → Option ℕ → Bool
alive at none = true
alive at (some end) = ltb at end

abbrev read_at : ℕ → Option (String × Option ℕ) → Option String
read_at at none = none
read_at at (some (v, end)) = if alive at end then some v else none

abbrev put : String → Option (String × Option ℕ) → Memory → Memory
put k entry s = λ k'. if str_eq k' k then entry else s k'

abbrev put_nx : Option String → Memory → Memory → Bool × Memory
put_nx none before after = (true, after)
put_nx (some v) before after = (false, before)

abbrev pub memory : Server Memory
memory = record {
  get = λ k at s. read_at at (s k);
  set = λ k v now s. put k (some (v, none)) s;
  set_px = λ k v ttl now s. put k (some (v, some (now + ttl))) s;
  set_nx_px = λ k v ttl now s. put_nx (read_at now (s k)) s (put k (some (v, some (now + ttl))) s);
  del = λ k now s. put k none s;
}

put-other :
    (k k' : String) (x : Option (String × Option ℕ)) (s : Memory) → k ≢ k' → put k x s k' ≡ s k'
put-other k k' x s ne = elim (Bool-cases (str_eq k' k)) [
  | inl b ↦ absurd (ne (sym ((eq_iff k' k).0 b)))
  | inr b ↦ simp b refl
]

pub memory-IsServer : IsServer memory
memory-IsServer = record {
  get_set_px = λ k v ttl now at s lo hi. simp (eq_refl k, lt→ltb at (now + ttl) hi) refl;
  get_other = λ k other v ttl now at s ne lo. ap (read_at at) (put-other other k _ s ne);
  nx_taken = λ k old v ttl now s h. ap (λ o. put_nx o s (put k (some (v, some (now + ttl))) s)) h;
  nx_free = λ k v ttl now s h. ap (λ o. put_nx o s (put k (some (v, some (now + ttl))) s)) h;
}
