-- ===== src/Resilient/Client/Gate.antt =====
-- libs/resilient-http-client/client.go: `enter`, `leave` and `Shutdown` of concurrent goroutines, one
-- atomic operation at a time.
use golang_basics.Base.{ℕ, suc, ◌+◌, ◌≤◌, ◌<◌, ◌≡◌, ◌⊎◌, Bool, true, false, arith}

-- The fields of the client, and how many goroutines stand where: `entering` have counted themselves
-- and not yet loaded `closing`; `active` are in flight; `checking` have counted themselves out to
-- 0 and not yet loaded `closing`; `signalling` have, and found it set. Of the calls of Shutdown, those
-- that are about to load `in_flight`, that wait, that returned nil, and that returned at the end of
-- their context.
pub record Gate : Type 0 where
  pub in_flight : ℕ
  pub closing : Bool
  pub idle : Bool
  pub entering : ℕ
  pub active : ℕ
  pub refused : ℕ
  pub checking : ℕ
  pub signalling : ℕ
  pub calls : ℕ
  pub loading : ℕ
  pub waiting : ℕ
  pub returned : ℕ
  pub expired : ℕ

abbrev pub new_gate : Gate
new_gate = record {
  in_flight = 0;
  closing = false;
  idle = false;
  entering = 0;
  active = 0;
  refused = 0;
  checking = 0;
  signalling = 0;
  calls = 0;
  loading = 0;
  waiting = 0;
  returned = 0;
  expired = 0;
}

pub data Step : Gate → Gate → Type 0 where
  -- enter: inFlight.Add(1)
  add : {g : Gate} → Step g (record g { in_flight = g.in_flight + 1; entering = g.entering + 1 })
  -- enter: closing.Load() is false
  admit :
      {g : Gate} (n : ℕ)
      → g.entering ≡ suc n
      → g.closing ≡ false
      → Step g (record g { entering = n; active = g.active + 1 })
  -- enter: closing.Load() is true, and leave follows
  refuse :
      {g : Gate} (n : ℕ)
      → g.entering ≡ suc n
      → g.closing ≡ true
      → Step g (record g { entering = n; refused = g.refused + 1 })
  -- leave: inFlight.Add(-1) of a request that is done, to 0 or not
  leave_last :
      {g : Gate} (n : ℕ)
      → g.active ≡ suc n
      → g.in_flight ≡ 1
      → Step g (record g { active = n; in_flight = 0; checking = g.checking + 1 })
  leave_more :
      {g : Gate} (n k : ℕ)
      → g.active ≡ suc n
      → g.in_flight ≡ suc (suc k)
      → Step g (record g { active = n; in_flight = suc k })
  -- leave: the same of a refused one
  refused_last :
      {g : Gate} (n : ℕ)
      → g.refused ≡ suc n
      → g.in_flight ≡ 1
      → Step g (record g { refused = n; in_flight = 0; checking = g.checking + 1 })
  refused_more :
      {g : Gate} (n k : ℕ)
      → g.refused ≡ suc n
      → g.in_flight ≡ suc (suc k)
      → Step g (record g { refused = n; in_flight = suc k })
  -- leave: closing.Load()
  check_open :
      {g : Gate} (n : ℕ)
      → g.checking ≡ suc n
      → g.closing ≡ false
      → Step g (record g { checking = n })
  check_closing :
      {g : Gate} (n : ℕ)
      → g.checking ≡ suc n
      → g.closing ≡ true
      → Step g (record g { checking = n; signalling = g.signalling + 1 })
  -- leave: the send on the channel of one entry, or `default`
  signal :
      {g : Gate} (n : ℕ) → g.signalling ≡ suc n → Step g (record g { signalling = n; idle = true })
  -- Shutdown: closing.Store(true)
  close :
      {g : Gate}
      → Step g (record g { closing = true; calls = g.calls + 1; loading = g.loading + 1 })
  -- Shutdown: inFlight.Load()
  load_zero :
      {g : Gate} (n : ℕ)
      → g.loading ≡ suc n
      → g.in_flight ≡ 0
      → Step g (record g { loading = n; returned = g.returned + 1 })
  load_more :
      {g : Gate} (n k : ℕ)
      → g.loading ≡ suc n
      → g.in_flight ≡ suc k
      → Step g (record g { loading = n; waiting = g.waiting + 1 })
  -- Shutdown: <-idle
  wake :
      {g : Gate} (n : ℕ)
      → g.waiting ≡ suc n
      → g.idle ≡ true
      → Step g (record g { idle = false; waiting = n; loading = g.loading + 1 })
  -- Shutdown: <-ctx.Done(), and an error
  expire :
      {g : Gate} (n : ℕ)
      → g.waiting ≡ suc n
      → Step g (record g { waiting = n; expired = g.expired + 1 })

pub data Reach (s : Gate) : Gate → Type 0 where
  here : Reach s s
  next : {t u : Gate} → Reach s t → Step t u → Reach s u

pub record Inv (g : Gate) : Type 0 where
  pub counted : g.in_flight ≡ g.entering + (g.active + g.refused)
  pub called : g.loading + (g.waiting + g.returned) ≤ g.calls
  pub closed_after : 0 < g.calls → g.closing ≡ true
  pub none_after : 0 < g.returned → g.active ≡ 0
  -- A single call that waits is woken: a request is in flight, or the signal is there or on its way.
  pub woken :
      g.calls ≤ 1
      → 0 < g.waiting
      → (0 < g.in_flight) ⊎ ((g.idle ≡ true) ⊎ (0 < g.checking + g.signalling))

Step-Inv : {g h : Gate} → Step g h → Inv g → Inv h
Step-Inv add v = ground arith
Step-Inv (admit n e c) v = ground arith
Step-Inv (refuse n e c) v = ground arith
Step-Inv (leave_last n a f) v = ground arith
Step-Inv (leave_more n k a f) v = ground arith
Step-Inv (refused_last n a f) v = ground arith
Step-Inv (refused_more n k a f) v = ground arith
Step-Inv (check_open n c o) v = ground arith
Step-Inv (check_closing n c o) v = ground arith
Step-Inv (signal n s) v = ground arith
Step-Inv close v = ground arith
Step-Inv (load_zero n p f) v = ground arith
Step-Inv (load_more n k p f) v = ground arith
Step-Inv (wake n p i) v = ground arith
Step-Inv (expire n p) v = ground arith

Reach-Inv : {g : Gate} → Reach new_gate g → Inv g
Reach-Inv here = ground arith
Reach-Inv (next r s) = Step-Inv s (Reach-Inv r)

Step-returned : {g h : Gate} → Step g h → g.returned ≤ h.returned
Step-returned add = omega arith
Step-returned (admit n e c) = omega arith
Step-returned (refuse n e c) = omega arith
Step-returned (leave_last n a f) = omega arith
Step-returned (leave_more n k a f) = omega arith
Step-returned (refused_last n a f) = omega arith
Step-returned (refused_more n k a f) = omega arith
Step-returned (check_open n c o) = omega arith
Step-returned (check_closing n c o) = omega arith
Step-returned (signal n s) = omega arith
Step-returned close = omega arith
Step-returned (load_zero n p f) = omega arith
Step-returned (load_more n k p f) = omega arith
Step-returned (wake n p i) = omega arith
Step-returned (expire n p) = omega arith

later : {g h : Gate} → Inv g → Reach g h → Inv h × (g.returned ≤ h.returned)
later v here = (v, omega arith)
later v (next r s) = let (w, le) = later v r in (Step-Inv s w, omega (arith, le, Step-returned s))

-- Once a call of Shutdown has returned nil, which it does not at the end of its context, no request is
-- in flight, then or after any later steps.
pub Shutdown-drained : {g h : Gate} → Reach new_gate g → 0 < g.returned → Reach g h → h.active ≡ 0
Shutdown-drained r p q = let (v, le) = later (Reach-Inv r) q in v.none_after (omega (arith, le, p))

-- Where Shutdown is called once: while it waits and nothing is in flight, the signal is in the
-- channel, or a goroutine that has counted itself out to 0 is about to send it.
pub Shutdown-woken :
    {g : Gate}
    → Reach new_gate g
    → g.calls ≡ 1
    → 0 < g.waiting
    → g.in_flight ≡ 0
    → (g.idle ≡ true) ⊎ (0 < g.checking + g.signalling)
Shutdown-woken r c p z = let v = (Reach-Inv r).woken (omega (arith, c)) p in ground arith
