-- ===== src/Httpx/LogLevel.antt =====
-- libs/httpx/loglevel.go and admin.go: the log level that an operator changes for a while.
pub mod Reverts
use golang_basics.Base.{
  ℕ, ◌+◌, ◌%◌, ◌^◌, ◌<◌, ◌≤◌, min, Bool, true, false, Option, none, some, List, [], ◌∷◌, ◌==◌, ltb,
  if◌then◌else◌, IsIn, ◌≡◌,
}
use golang_basics.Base.Int.{ℤ, pos, negsuc}

-- `expires` is none for the zero time. `armed` is the generation that l.timer's callback has, until
-- it is stopped or fires; `waiting` those of callbacks that have fired and have not got the lock.
pub record LogLevel : Type 0 where
  pub level : ℤ
  pub base : ℤ
  pub gen : ℕ
  pub expires : Option ℕ
  pub armed : Option ℕ
  pub waiting : List ℕ

abbrev pub new_log_level : ℤ → LogLevel
new_log_level base = record {
  level = base;
  base = base;
  gen = 0;
  expires = none;
  armed = none;
  waiting = [];
}

abbrev deadline : ℤ → ℕ → Option ℕ
deadline (pos n) now = if ltb 0 n then some (now + n) else none
deadline (negsuc n) now = none

abbrev armed_for : ℤ → ℕ → Option ℕ
armed_for (pos n) gen = if ltb 0 n then some gen else none
armed_for (negsuc n) gen = none

unfoldable pub set_level : ℤ → ℤ → ℕ → LogLevel → LogLevel
set_level level ttl now l =
    let gen = (l.gen + 1) % 2 ^ 64 in
    record l { level = level; gen = gen; expires = deadline ttl now; armed = armed_for ttl gen }

abbrev pub reset_level : ℕ → LogLevel → LogLevel
reset_level now l = set_level l.base (pos 0) now l

unfoldable pub revert : ℕ → LogLevel → LogLevel
revert gen l = if l.gen == gen then record l { level = l.base; expires = none; armed = none } else l

-- `PUT /admin/log-level`: the level, if it is one, and the ttl, where `some none` is no duration.
-- Other than the cap of the configuration, the code's answer is left out.
pub data Put : Type 0 where
  bad_level bad_ttl changed : Put

unfoldable pub put_log_level : ℕ → Option ℤ → Option (Option ℤ) → ℕ → LogLevel → LogLevel × Put
put_log_level cap_ttl none ttl now l = (l, bad_level)
put_log_level cap_ttl (some level) none now l = (set_level level (pos cap_ttl) now l, changed)
put_log_level cap_ttl (some level) (some none) now l = (l, bad_ttl)
put_log_level cap_ttl (some level) (some (some (negsuc n))) now l = (l, bad_ttl)
put_log_level cap_ttl (some level) (some (some (pos n))) now l =
    if n == 0 then (l, bad_ttl) else (set_level level (pos (min n cap_ttl)) now l, changed)

-- time.AfterFunc's timer fires, and its callback gets the lock.
unfoldable pub fire : LogLevel → LogLevel
fire l = elim l.armed [ none ↦ l | some g ↦ record l { armed = none; waiting = g ∷ l.waiting } ]

abbrev pub remove : ℕ → List ℕ → List ℕ
remove g [] = []
remove g (h ∷ hs) = if h == g then hs else h ∷ remove g hs

unfoldable pub call_back : ℕ → LogLevel → LogLevel
unfolding revert
call_back g l = revert g (record l { waiting = remove g l.waiting })

-- Requests to the admin port, and timers; fewer than 2^64 changes.
pub data Step (cap_ttl : ℕ) : LogLevel → LogLevel → Type 0 where
  put :
      (l : LogLevel) (level : Option ℤ) (ttl : Option (Option ℤ)) (now : ℕ)
      → l.gen + 1 < 2 ^ 64
      → Step cap_ttl l (put_log_level cap_ttl level ttl now l).0
  delete : (l : LogLevel) (now : ℕ) → l.gen + 1 < 2 ^ 64 → Step cap_ttl l (reset_level now l)
  fires : (l : LogLevel) → Step cap_ttl l (fire l)
  calls_back : (l : LogLevel) (g : ℕ) → IsIn g l.waiting → Step cap_ttl l (call_back g l)

pub data Reach (cap_ttl : ℕ) (s : LogLevel) : LogLevel → Type 0 where
  here : Reach cap_ttl s s
  next : {t u : LogLevel} → Reach cap_ttl s t → Step cap_ttl t u → Reach cap_ttl s u
