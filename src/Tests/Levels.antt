-- ===== src/Tests/Levels.antt =====
-- A log level changed for a minute, and a chain of redirects.
use golang_basics.Base.{
  ℕ, ◌+◌, ◌≤◌, ◌%◌, min, some, ◌^◌, ◌<◌, ◌≡◌, ◌≢◌, refl, ◌⊎◌, false, none, List, [], ◌∷◌, String,
  str_eq, IsIn, arith,
}
use golang_basics.Base.Int.{ℤ, pos, negsuc}
use golang_basics.Httpx.LogLevel.{
  LogLevel, new_log_level, set_level, revert, put_log_level, fire, call_back, Reach, here, next,
  put, fires,
}
use golang_basics.Httpx.LogLevel.Reverts.{IsPending, level-reverts}
use golang_basics.Resilient.Redirects.{Url, redirect_policy, follow}
use golang_basics.Resilient.Redirects.Followed.{AllFollowed}

-- The first change's timer fires and its callback waits while the level is changed again.
abbrev debug : LogLevel
debug = fire (put_log_level 3600 (some (negsuc 3)) none 100 (new_log_level (pos 0))).0

debug_test : (call_back 1 debug).level ≡ pos 0
unfolding call_back fire put_log_level set_level
debug_test = refl

small : (new_log_level (pos 0)).gen + 1 < 2 ^ 64
small = omega arith

asked : Reach 3600 (new_log_level (pos 0)) debug
asked = next (next here (put (new_log_level (pos 0)) (some (negsuc 3)) none 100 small)) (fires _)

level-reverts_example :
    ((debug.level ≡ pos 0) ⊎ ((debug.expires ≢ none) × IsPending debug))
    × ((revert debug.gen debug).level ≡ pos 0)
    × ((level ttl : ℤ) (now g : ℕ)
        → debug.gen + 1 < 2 ^ 64
        → IsIn g debug.waiting
        → revert g (set_level level ttl now debug) ≡ set_level level ttl now debug)
    × ((level : ℤ) (n now : ℕ)
        → 1 ≤ n
        → (put_log_level 3600 (some level) (some (some (pos n))) now debug).0 ≡ record debug {
          level = level;
          gen = (debug.gen + 1) % 2 ^ 64;
          expires = some (now + min n 3600);
          armed = some ((debug.gen + 1) % 2 ^ 64);
        })
level-reverts_example = level-reverts (pos 0) (omega arith) asked

abbrev url : String → Url
url scheme = record { scheme = scheme; host = "api" }

abbrev chain : List Url
chain = url "https" ∷ (url "https" ∷ [])

let_through : AllFollowed str_eq none 3 (url "https") [] chain
unfolding redirect_policy
let_through = (refl, (refl, tt))

downgrade_test : redirect_policy str_eq none (pos 3) false (url "http") (url "https") [] ≢ follow
unfolding redirect_policy
downgrade_test = λ e. cc
