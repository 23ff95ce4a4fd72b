-- ===== src/Valkey/Aside.antt =====
-- libs/valkey/aside.go: the cache-aside read and its fill.
use golang_basics.Base.{
  Result, ok, err, ℕ, ◌+◌, ◌-◌, ◌*◌, ◌/◌, ◌==◌, Bool, true, false, Option, none, some, String,
  if◌then◌else◌,
}
use golang_basics.Base.Int.{ℤ, pos, negsuc}
use golang_basics.Valkey.Server.{Server, Fate, Lookup, hit, miss, failed_lookup, get, set_nx}

-- `rand.Int64N` is an argument; a ttl that is not positive stays.
unfoldable pub jitter : (ℕ → ℕ) → ℤ → ℤ
jitter int64n (negsuc n) = negsuc n
jitter int64n (pos ttl) =
    let spread = ttl / 10 in
    if spread == 0 then pos ttl else pos (ttl + int64n (2 * spread + 1) - spread)

-- JSON, as the callers use it.
pub record Codec (A : Type 0) : Type 0 where
  pub encode : A → Option String
  pub decode : String → Option A

-- What else decides a read: how its two commands end, its times, the random number of its fill, and
-- whether its context ends before the load has. `joined` is what a load of another miss comes to that
-- is under way when this one asks for its own: singleflight shares that one.
pub record Read (E A : Type 0) : Type 0 where
  pub lookup : Fate
  pub fill : Fate
  pub now : ℕ
  pub filled_at : ℕ
  pub int64n : ℕ → ℕ
  pub cancelled : Bool
  pub joined : Option (Result E A)

-- `canceled` is the context's error.
pub data AsideError (E : Type 0) : Type 0 where
  load_error : E → AsideError E
  canceled : AsideError E

abbrev pub cached : {A : Type 0} → Codec A → Lookup → Option A
cached codec miss = none
cached codec failed_lookup = none
cached codec (hit raw) = codec.decode raw

module _ {S A E : Type 0} (server : Server S) (codec : Codec A) where
  -- The closure that concurrent misses share: what it leaves of the server; it runs for the first.
  unfoldable pub fill : String → ℤ → Read E A → Result E A → S → S
  unfolding set_nx jitter
  fill key ttl r (err e) s = s
  fill key ttl r (ok v) s = fill_with (codec.encode v)
    where
      fill_with : Option String → S
      fill_with none = s
      fill_with (some b) = (set_nx server key b (jitter r.int64n ttl) r.fill r.filled_at s).1

  abbrev pub loaded : Bool → Result E A → Result (AsideError E) (A × Bool)
  loaded true l = err canceled
  loaded false (ok v) = ok (v, false)
  loaded false (err e) = err (load_error e)

  abbrev pub flight : Option (Result E A) → Result E A → Result E A
  flight none load = load
  flight (some shared) load = shared

  abbrev is_own : Option (Result E A) → Bool
  is_own none = true
  is_own (some shared) = false

  abbrev pub aside_with :
      Option A → String → ℤ → Read E A → Result E A → S → Result (AsideError E) (A × Bool) × S
  aside_with (some v) key ttl r load s = (ok (v, true), s)
  aside_with none key ttl r load s = (
    loaded r.cancelled (flight r.joined load),
    if is_own r.joined then fill key ttl r load s else s,
  )

  -- The value and whether it was a hit. A lookup that fails or does not decode is a miss.
  unfoldable pub aside :
      String → ℤ → Read E A → Result E A → S → Result (AsideError E) (A × Bool) × S
  unfolding get fill
  aside key ttl r load s =
      aside_with (cached codec (get server key r.lookup r.now s)) key ttl r load s
