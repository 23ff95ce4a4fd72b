-- ===== src/Httpx/Sampling.antt =====
-- libs/httpx/sampling.go: the handler that drops repetitive debug and info records.
pub mod Share
use Prim.Native.Nat.{bit_xor}
use golang_basics.Base.{
  ℕ, zero, suc, ◌+◌, ◌-◌, ◌%◌, ◌^◌, Bool, true, false, ◌||◌, List, [], ◌∷◌, String, ltb, leb, ◌==◌,
  if◌then◌else◌,
}
use golang_basics.Base.Int.{ℤ, pos, negsuc, ltb_ℤ, leb_ℤ}
use golang_basics.Resilient.Config.{second}

abbrev pub sampling_slots : ℕ
sampling_slots = 4096

-- Times are nanoseconds since 1970.
pub record SampleCounter : Type 0 where
  pub reset_at : ℕ
  pub n : ℕ

unfoldable pub inc : ℕ → ℕ → SampleCounter → SampleCounter
inc now tick c =
    if leb c.reset_at now
    then record { reset_at = now + tick; n = 1 }
    else record c { n = (c.n + 1) % 2 ^ 64 }

-- `counters` is the fixed table, by slot.
pub record SamplingHandler : Type 0 where
  pub initial : ℕ
  pub thereafter : ℕ
  pub tick : ℕ
  pub counters : ℕ → SampleCounter
  pub dropped_debug : ℕ
  pub dropped_info : ℕ

-- `uint64(z)`
abbrev pub uint64 : ℤ → ℕ
uint64 (pos n) = n % 2 ^ 64
uint64 (negsuc n) = 2 ^ 64 - 1 - n % 2 ^ 64

abbrev pub positive_or : ℤ → ℕ → ℕ
positive_or (pos zero) d = d
positive_or (pos (suc n)) d = suc n
positive_or (negsuc n) d = d

unfoldable pub new_sampling_handler : ℤ → ℤ → ℤ → SamplingHandler
new_sampling_handler initial thereafter tick = record {
  initial = uint64 initial;
  thereafter = positive_or thereafter 100;
  tick = positive_or tick second;
  counters = λ i. record { reset_at = 0; n = 0 };
  dropped_debug = 0;
  dropped_info = 0;
}

-- A record, with `DebugLogging` of its context and the clock at the call; `time` is
-- what UnixNano gives, of a time from 1970 on.
pub record Record : Type 0 where
  pub level : ℤ
  pub message : String
  pub time : ℕ
  pub debugging : Bool
  pub clock : ℕ

-- slog's levels.
abbrev pub level_info : ℤ
level_info = pos 0

abbrev pub level_warn : ℤ
level_warn = pos 4

unfoldable pub time_of : Record → ℕ
time_of r = if r.time == 0 then r.clock else r.time

unfoldable pub is_sampled : Record → Bool
is_sampled r = if leb_ℤ level_warn r.level then false else if r.debugging then false else true

abbrev put : ℕ → SampleCounter → (ℕ → SampleCounter) → ℕ → SampleCounter
put i c counters j = if j == i then c else counters j

-- `r.Level + 128`, of an int.
abbrev plus_128 : ℤ → ℤ
plus_128 (pos n) = pos (n + 128)
plus_128 (negsuc n) = if ltb n 128 then pos (127 - n) else negsuc (n - 128)

-- The 64-bit FNV-1a hash of a message is an argument.
module _ (fnv : String → ℕ) where
  unfoldable pub slot : Record → ℕ
  slot r = bit_xor (fnv r.message) (uint64 (plus_128 r.level)) % sampling_slots

  abbrev counted : SamplingHandler → ℕ → SampleCounter → SamplingHandler
  counted h i c = record h { counters = put i c h.counters }

  abbrev drop_record : Record → SamplingHandler → SamplingHandler
  drop_record r h =
      if leb_ℤ level_info r.level
      then record h { dropped_info = (h.dropped_info + 1) % 2 ^ 64 }
      else record h { dropped_debug = (h.dropped_debug + 1) % 2 ^ 64 }

  abbrev is_passed : SamplingHandler → ℕ → Bool
  is_passed h n = leb n h.initial || ((n - h.initial) % h.thereafter == 0)

  abbrev handle_sampled : SamplingHandler → Record → SamplingHandler × Bool
  handle_sampled h r =
      let i = slot r in
      let c = inc (time_of r) h.tick (h.counters i) in
      let h' = counted h i c in if is_passed h c.n then (h', true) else (drop_record r h', false)

  -- `Handle`: the handler, and whether the record went to the next one.
  unfoldable pub handle : SamplingHandler → Record → SamplingHandler × Bool
  handle h r = if is_sampled r then handle_sampled h r else (h, true)

  -- Records one after another, with those that passed.
  unfoldable pub handle_all : SamplingHandler → List Record → SamplingHandler × List Record
  handle_all h [] = (h, [])
  handle_all h (r ∷ rs) =
      let (h', on) = handle h r in
      let (end, passed) = handle_all h' rs in (end, if on then r ∷ passed else passed)
