-- ===== src/Resilient/Bulkhead.antt =====
-- libs/resilient-http-client/bulkhead.go: a fixed concurrency limit with a bounded wait.
use golang_basics.Base.{
  ℕ, ◌+◌, ◌-◌, Bool, true, false, ◌||◌, Option, none, some, ltb, ◌==◌, if◌then◌else◌,
}
use golang_basics.Base.Int.{ℤ, pos, pos_part, leb_ℤ}
use golang_basics.Base.Float.{Float64}
use golang_basics.Resilient.Config.{TargetConfig}

-- `in_use` entries are in the channel, of `slots`; `stuck` receives wait on it while it is empty.
pub record Bulkhead : Type 0 where
  pub slots : ℕ
  pub in_use : ℕ
  pub stuck : ℕ
  pub wait : ℤ

unfoldable pub new_bulkhead : {fl : Float64} → TargetConfig fl → Option Bulkhead
new_bulkhead cfg =
    if leb_ℤ cfg.max_concurrent (pos 0)
    then none
    else some (record {
      slots = pos_part cfg.max_concurrent;
      in_use = 0;
      stuck = 0;
      wait = cfg.max_concurrent_wait;
    })

-- Which case of the second `select` fires.
pub data Fired : Type 0 where
  slot_case timer_case done_case : Fired

-- What happens while a request waits: the slots that others hold then, and the case that fires.
pub record Waited : Type 0 where
  pub in_use : ℕ
  pub fired : Fired

-- `b.slots <- struct{}{}` where the channel has room.
abbrev try_send : Bulkhead → Bulkhead × Bool
try_send b = if ltb b.in_use b.slots then (record b { in_use = b.in_use + 1 }, true) else (b, false)

abbrev select : Fired → Bulkhead → Bulkhead × Bool
select slot_case b = try_send b
select timer_case b = (b, false)
select done_case b = (b, false)

abbrev acquire_some : Bulkhead → Bool → Waited → Bulkhead × Bool
acquire_some b ctx_done w =
    if ltb b.in_use b.slots
    then try_send b
    else if leb_ℤ b.wait (pos 0) || ctx_done
    then (b, false)
    else select w.fired (record b { in_use = w.in_use })

unfoldable pub acquire : Option Bulkhead → Bool → Waited → Option Bulkhead × Bool
acquire none ctx_done w = (none, true)
acquire (some b) ctx_done w = let (b', got) = acquire_some b ctx_done w in (some b', got)

unfoldable pub release : Option Bulkhead → Option Bulkhead
release none = none
release (some b) =
    some (
      if b.in_use == 0
      then record b { stuck = b.stuck + 1 }
      else record b { in_use = b.in_use - 1 })
