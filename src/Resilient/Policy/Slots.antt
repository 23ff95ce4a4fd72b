-- ===== src/Resilient/Policy/Slots.antt =====
-- libs/resilient-http-client/client.go: the bulkhead's slot of an attempt.
use golang_basics.Base.{
  ℕ, ◌+◌, ◌-◌, ◌≤◌, ◌<◌, ◌≡◌, refl, ◌⊎◌, inl, inr, Bool, ◌&&◌, not, Option, some, List, ltb,
  if◌then◌else◌, Bool-cases, Option-cases, arith,
}
use golang_basics.Base.Int.{pos}
use golang_basics.Base.Float.{Float64}
use golang_basics.Resilient.Errors.{Request}
use golang_basics.Resilient.Bulkhead.{Bulkhead, Waited, acquire, release}
use golang_basics.Resilient.Breaker.{Ticket, allow}
use golang_basics.Resilient.Policy.{
  Policy, Try, Reply, Sent, broken, answer, ok, err, settle, transmit, take_slot, pass_limiter,
  attempt,
}

-- While a request is on the wire, the others end up with `k` slots, and leave this one alone.
abbrev pub OthersHold : {fl : Float64} → ℕ → (Policy fl → Policy fl) → Type 0
OthersHold {fl} k others =
    (q : Policy fl) (b : Bulkhead)
    → q.bulkhead ≡ some b
    → (others q).bulkhead ≡ some (record b { in_use = k + 1 })

-- A success holds one slot beside the others' `k`; a failure holds none: either it gave its slot
-- back, or it never had one, and what is in use is what it found.
abbrev pub InUse : ℕ → Bulkhead → ℕ → Sent → ℕ → Type 0
InUse k b waited (ok code) n = n ≡ k + 1
InUse k b waited (err e) n = (n ≡ k) ⊎ ((n ≡ b.in_use) ⊎ (n ≡ waited))

abbrev pub SlotKept : {fl : Float64} → ℕ → Bulkhead → ℕ → Policy fl × Sent → Type 0
SlotKept k b waited r =
    (b' : Bulkhead) × (r.0.bulkhead ≡ some b')
    × (b'.slots ≡ b.slots)
    × (b'.stuck ≡ b.stuck)
    × (b'.in_use ≤ b.slots)
    × InUse k b waited r.1 b'.in_use

module _ {fl : Float64} (parse_time : List ℕ → Option ℕ) (k : ℕ) (b : Bulkhead) (waited : ℕ)
    (room : k < b.slots) where
  settle-SlotKept :
      (r : Reply) (at : ℕ) (tk : Ticket) (p : Policy fl) (c : Bulkhead)
      → p.bulkhead ≡ some (record c { in_use = k + 1 })
      → c.slots ≡ b.slots
      → c.stuck ≡ b.stuck
      → SlotKept k b waited (settle parse_time r at tk p)
  unfolding settle release
  settle-SlotKept (broken e) at tk p c h s t =
      (record c { in_use = k }, ground arith, s, t, omega arith, inl refl)
  settle-SlotKept (answer code header) at tk p c h s t = elim (Bool-cases (ltb code 400)) [
    | inl good ↦ rw good (record c { in_use = k + 1 }, h, s, t, omega arith, refl)
    | inr bad ↦ rw bad (record c { in_use = k }, ground arith, s, t, omega arith, inl refl)
  ]

  transmit-SlotKept :
      (req : Request) (n : ℕ) (e : Try fl) (tk : Ticket) (p : Policy fl) (c : Bulkhead)
      → OthersHold k e.others
      → p.bulkhead ≡ some c
      → c.slots ≡ b.slots
      → c.stuck ≡ b.stuck
      → (c.in_use ≡ b.in_use + 1) ⊎ (c.in_use ≡ waited + 1)
      → c.in_use ≤ c.slots
      → SlotKept k b waited (transmit parse_time req n e tk p)
  unfolding transmit release
  transmit-SlotKept req n e tk p c o h s t u le =
      elim (Bool-cases (ltb 1 n && req.has_get_body && not e.body_ok)) [
        | inl bad ↦
            rw bad
              (record c { in_use = c.in_use - 1 }, ground arith, s, t, omega arith, ground arith)
        | inr good ↦ rw good (settle-SlotKept e.reply e.reply_at tk (e.others p) c (o p c h) s t)
      ]

-- A slot is taken on top of what is in use at that moment, and never above the limit.
abbrev Acquired : Bulkhead → ℕ → Option Bulkhead × Bool → Type 0
Acquired b waited r =
    (c : Bulkhead) × (r.0 ≡ some c)
    × (c.slots ≡ b.slots)
    × (c.stuck ≡ b.stuck)
    × (c.in_use ≤ b.slots)
    × ((c.in_use ≡ b.in_use + (if r.1 then 1 else 0))
        ⊎ (c.in_use ≡ waited + (if r.1 then 1 else 0)))

acquire-Acquired :
    (b : Bulkhead) (done : Bool) (w : Waited)
    → b.in_use ≤ b.slots
    → w.in_use ≤ b.slots
    → Acquired b w.in_use (acquire (some b) done w)
unfolding acquire
acquire-Acquired b done w h g = elim (Option-cases (acquire (some b) done w).0) [
  | inl n ↦ absurd (ground arith)
  | inr (c, e) ↦ (c, e, ground arith, ground arith, ground arith, ground arith)
]

module _ {fl : Float64} (parse_time : List ℕ → Option ℕ) (k : ℕ) where
  take_slot-SlotKept :
      (req : Request) (n : ℕ) (e : Try fl) (tk : Ticket) (p : Policy fl) (b : Bulkhead)
      → OthersHold k e.others
      → p.bulkhead ≡ some b
      → b.in_use ≤ b.slots
      → e.waited.in_use ≤ b.slots
      → k < b.slots
      → SlotKept k b e.waited.in_use (take_slot parse_time req n e tk p)
  unfolding take_slot
  take_slot-SlotKept req n e tk p b o h le wle room =
      let a = acquire p.bulkhead e.actx_done e.waited in
      let (c, ec, s, t, cle, u) = rw (← h) at (acquire-Acquired b e.actx_done e.waited le wle) in
      elim (Bool-cases a.1) [
        | inl got ↦
            let u' : (c.in_use ≡ b.in_use + 1) ⊎ (c.in_use ≡ e.waited.in_use + 1) = rw got at u in
            rw got (
              transmit-SlotKept parse_time k b e.waited.in_use room req n e tk
                (record p { bulkhead = a.0 }) c o ec s t u' (ground arith))
        | inr full ↦ (c, ground arith, s, t, cle, ground arith)
      ]

  -- Where the others keep within the limit and leave this request's slot alone: on every path of an
  -- attempt the bulkhead is left with one slot more than the others hold after a
  -- success, and with none of this request's after a failure; it stays within its limit, and no
  -- release waits for a slot.
  pub attempt-SlotKept :
      (p : Policy fl) (req : Request) (n : ℕ) (e : Try fl) (b : Bulkhead)
      → OthersHold k e.others
      → p.bulkhead ≡ some b
      → b.in_use ≤ b.slots
      → e.waited.in_use ≤ b.slots
      → k < b.slots
      → SlotKept k b e.waited.in_use (attempt parse_time p req n e)
  unfolding attempt pass_limiter
  attempt-SlotKept p req n e b o h le wle room =
      let a = allow p.breaker e.allow_at in
      let p' = record p { breaker = a.0 } in
      elim (Bool-cases a.1.1) [
        | inl in_ ↦
            elim (Bool-cases (fl.lt (fl.of_int (pos 0)) p.cfg.rate_limit && not e.limiter_ok)) [
              | inl late ↦ (b, ground arith, refl, refl, le, ground arith)
              | inr go ↦ rw in_ (rw go (take_slot-SlotKept req n e a.1.0 p' b o h le wle room))
            ]
        | inr out ↦ (b, ground arith, refl, refl, le, ground arith)
      ]
