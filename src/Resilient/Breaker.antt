-- ===== src/Resilient/Breaker.antt =====
-- libs/resilient-http-client/breaker.go: the circuit breaker.
pub mod Cases
pub mod Races
pub mod Trip
pub mod Probes
use golang_basics.Base.{
  ℕ, ◌+◌, ◌-◌, ◌%◌, ◌^◌, Bool, true, false, ◌&&◌, ◌||◌, not, Option, none, some, List, [], ◌∷◌, ltb,
  leb, ◌==◌, if◌then◌else◌,
}
use golang_basics.Base.Int.{ℤ, pos, pos_part, neg_part, leb_ℤ}
use golang_basics.Base.Float.{Float64}
use golang_basics.Resilient.Config.{TargetConfig}
use golang_basics.Resilient.Window.{Window}
use golang_basics.Resilient.Window

pub data BreakerState : Type 0 where
  closed open_state half_open : BreakerState

pub data Outcome : Type 0 where
  success failure ignored : Outcome

pub record Ticket : Type 0 where
  pub gen : ℕ
  pub probe : Bool

pub record Snapshot : Type 0 where
  pub state : BreakerState
  pub gen : ℕ
  pub probes : ℕ
  pub successes : ℕ
  pub opened_at : ℕ

-- `version` stands for the identity of the pointer in `cur`: each store makes a new one.
-- `changes` are the calls of `onChange`, the latest first.
pub record Breaker (fl : Float64) : Type 0 where
  pub cur : Snapshot
  pub version : ℕ
  pub win : Window
  pub win_gen : ℕ
  pub ratio : fl.F
  pub min_requests : ℤ
  pub open_timeout : ℤ
  pub max_probes : ℤ
  pub changes : List (BreakerState × BreakerState)

-- uint64
abbrev pub u64 : ℕ → ℕ
u64 n = n % 2 ^ 64

abbrev pub fresh : BreakerState → ℕ → Snapshot
fresh st gen = record { state = st; gen = gen; probes = 0; successes = 0; opened_at = 0 }

abbrev pub eq_state : BreakerState → BreakerState → Bool
eq_state closed closed = true
eq_state open_state open_state = true
eq_state half_open half_open = true
eq_state _ _ = false

abbrev pub no_ticket : Ticket
no_ticket = record { gen = 0; probe = false }

-- What another goroutine does to the breaker between a load and the step that follows it.
abbrev pub Rival : Float64 → Type 0
Rival fl = Breaker fl → Breaker fl

abbrev pub Admission : Type 0
Admission = Ticket × Bool

-- now - since < d
abbrev pub elapsed_lt : ℕ → ℕ → ℤ → Bool
elapsed_lt now since d = ltb (now + neg_part d) (since + pos_part d)

-- The next snapshot after a probe.
abbrev probe_next : Outcome → ℕ → ℤ → Snapshot → Snapshot
probe_next ignored now max_probes s = record s { probes = s.probes - 1 }
probe_next failure now max_probes s = record (fresh open_state (u64 (s.gen + 1))) {
  opened_at = now;
}
probe_next success now max_probes s =
    if leb_ℤ max_probes (pos (s.successes + 1))
    then fresh closed (u64 (s.gen + 1))
    else record s { successes = s.successes + 1 }

abbrev failed : Outcome → ℕ
failed failure = 1
failed _ = 0

abbrev is_ignored : Outcome → Bool
is_ignored ignored = true
is_ignored _ = false

module _ {fl : Float64} where
  unfoldable pub new_breaker : TargetConfig fl → Option (Breaker fl)
  new_breaker cfg =
      if fl.le cfg.breaker_failure_ratio (fl.of_int (pos 0))
      then none
      else some (record {
        cur = fresh closed 0;
        version = 0;
        win = Window.new_window (pos_part cfg.breaker_window);
        win_gen = 0;
        ratio = cfg.breaker_failure_ratio;
        min_requests = cfg.breaker_min_requests;
        open_timeout = cfg.breaker_open_timeout;
        max_probes = cfg.breaker_half_open_probes;
        changes = [];
      })

  unfoldable pub state : Option (Breaker fl) → BreakerState
  state none = closed
  state (some b) = b.cur.state

  -- `cur.CompareAndSwap` of the pointer loaded at `version`.
  abbrev pub cas : ℕ → Snapshot → Breaker fl → Option (Breaker fl)
  cas version next b =
      if b.version == version then some (record b { cur = next; version = b.version + 1 }) else none

  abbrev notify : BreakerState → BreakerState → Option (Breaker fl) → Option (Breaker fl)
  notify from to none = none
  notify from to (some b) = some (record b { changes = (from, to) ∷ b.changes })

  unfoldable pub swap : ℕ → Snapshot → Snapshot → Breaker fl → Option (Breaker fl)
  swap version s next b = notify s.state next.state (cas version next b)

  abbrev with_ticket : Ticket → Option (Breaker fl) → Option (Breaker fl × Admission)
  with_ticket t none = none
  with_ticket t (some b) = some (b, (t, true))

  -- One pass of the loop of `allow`: `s` was loaded at `version`, and `b` is the breaker when the
  -- pass returns or swaps. `none` is a lost race.
  abbrev allow_pass : BreakerState → ℕ → Snapshot → ℕ → Breaker fl → Option (Breaker fl × Admission)
  allow_pass closed now s version b = some (b, (record { gen = s.gen; probe = false }, true))
  allow_pass open_state now s version b =
      let gen = u64 (s.gen + 1) in
      let next = record (fresh half_open gen) { probes = 1 } in
      if elapsed_lt now s.opened_at b.open_timeout
      then some (b, (no_ticket, false))
      else with_ticket (record { gen = gen; probe = true }) (swap version s next b)
  allow_pass half_open now s version b =
      let next = record s { probes = s.probes + 1 } in
      if leb_ℤ b.max_probes (pos s.probes)
      then some (b, (no_ticket, false))
      else with_ticket (record { gen = s.gen; probe = true }) (cas version next b)

  unfoldable pub allow_try : ℕ → Breaker fl → Breaker fl → Option (Breaker fl × Admission)
  unfolding swap
  allow_try now loaded b = allow_pass loaded.cur.state now loaded.cur loaded.version b

  -- `allow`, with what rivals do in each of its passes.
  unfoldable pub allow_loop : List (Rival fl) → ℕ → Breaker fl → Option (Breaker fl × Admission)
  allow_loop [] now b = allow_try now b b
  allow_loop (r ∷ rivals) now b =
      let again = allow_loop rivals now (r b) in
      elim (allow_try now b (r b)) [ some x ↦ some x | none ↦ again ]

  unfoldable pub probe_try : Ticket → Outcome → ℕ → Breaker fl → Breaker fl → Option (Breaker fl)
  unfolding swap
  probe_try t o now loaded b =
      let s = loaded.cur in
      let next = probe_next o now b.max_probes s in
      if not (eq_state s.state half_open) || not (s.gen == t.gen)
      then some b
      else if eq_state next.state s.state
      then cas loaded.version next b
      else swap loaded.version s next b

  unfoldable pub record_probe :
      List (Rival fl) → Ticket → Outcome → ℕ → Breaker fl → Option (Breaker fl)
  record_probe [] t o now b = probe_try t o now b b
  record_probe (r ∷ rivals) t o now b =
      let again = record_probe rivals t o now (r b) in
      elim (probe_try t o now b (r b)) [ some x ↦ some x | none ↦ again ]

  -- failures / requests reach the ratio, and there are enough requests.
  abbrev pub is_tripped : Breaker fl → ℕ → ℕ → Bool
  is_tripped b requests failures =
      leb_ℤ b.min_requests (pos requests)
      && fl.le (fl.mul b.ratio (fl.of_int (pos requests))) (fl.of_int (pos failures))

  -- The section under the mutex: the window of another generation is forgotten first.
  unfoldable pub count_in_window : ℕ → ℕ → ℕ → Breaker fl → Breaker fl
  count_in_window gen now f b =
      let win = if b.win_gen == gen then b.win else Window.reset b.win in
      record b { win = Window.add win now 1 f; win_gen = gen }

  abbrev or_else : Option (Breaker fl) → Breaker fl → Breaker fl
  or_else none b = b
  or_else (some b') b = b'

  -- A result in the closed state. `before` is what rivals do before the mutex is taken, `after` what
  -- they do between the mutex and the swap.
  unfoldable pub record_closed :
      Rival fl → Rival fl → Ticket → Outcome → ℕ → Breaker fl → Breaker fl
  unfolding swap count_in_window
  record_closed before after t o now b =
      let s = b.cur in
      let b' = count_in_window s.gen now (failed o) (before b) in
      let (requests, failures) = Window.sum b'.win now in
      let next = record (fresh open_state (u64 (s.gen + 1))) { opened_at = now } in
      if not (eq_state s.state closed) || not (s.gen == t.gen)
      then b
      else if failed o == 1 && is_tripped b requests failures
      then or_else (swap b.version s next (after b')) (after b')
      else after b'

  -- `allow` and `record` where no other goroutine gets in between.
  abbrev pub no_rival : Rival fl
  no_rival b = b

  abbrev admit : Option (Breaker fl × Admission) → Breaker fl → Option (Breaker fl) × Admission
  admit none b = (some b, (no_ticket, false))
  admit (some (b', a)) b = (some b', a)

  unfoldable pub allow : Option (Breaker fl) → ℕ → Option (Breaker fl) × Admission
  unfolding allow_loop
  allow none now = (none, (no_ticket, true))
  allow (some b) now = admit (allow_loop [] now b) b

  unfoldable pub record_ticket : Option (Breaker fl) → Ticket → Outcome → ℕ → Option (Breaker fl)
  unfolding record_probe
  record_ticket none t o now = none
  record_ticket (some b) t o now =
      if t.probe
      then record_probe [] t o now b
      else if is_ignored o
      then some b
      else some (record_closed no_rival no_rival t o now b)
