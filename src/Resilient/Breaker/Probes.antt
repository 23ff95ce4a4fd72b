-- ===== src/Resilient/Breaker/Probes.antt =====
-- libs/resilient-http-client/breaker.go: requests that run beside each other, each with its ticket.
-- Every change of the breaker is one swap of the snapshot, so an interleaving is a sequence of steps.
use golang_basics.Base.{
  ℕ, suc, ◌+◌, ◌^◌, ◌≤◌, ◌<◌, ◌≡◌, ◌≢◌, refl, ◌⊎◌, inl, inr, true, false, ◌&&◌, some, List, [], ◌∷◌,
  ◌++◌, ◌==◌, if◌then◌else◌, All, Bool-cases, arith,
}
use golang_basics.Base.Int.{pos}
use golang_basics.Base.Float.{Float64}
use golang_basics.Resilient.Breaker.Cases.{
  Admitted, Probed, admit-cases, refuse-cases, probe-cases, plain-cases,
}
use golang_basics.Resilient.Config.{TargetConfig}
use golang_basics.Resilient.Breaker.{
  new_breaker, Breaker, BreakerState, Ticket, Outcome, closed, open_state, half_open, success,
  failure, ignored, fresh, u64, allow_try, probe_try, record_ticket,
}

-- The tickets that hold a probe slot of a generation.
abbrev pub held : ℕ → List Ticket → ℕ
held g [] = 0
held g (t ∷ ts) = (if t.probe && t.gen == g then 1 else 0) + held g ts

pub record Running (fl : Float64) : Type 0 where
  pub b : Breaker fl
  pub out : List Ticket

module _ {fl : Float64} where
  -- A request is admitted, is refused, or reports how it ended. Fewer than 2^64 changes happen.
  pub data Step : Running fl → Running fl → Type 0 where
    admits :
        (now : ℕ) (t : Ticket) {s : Running fl} {b : Breaker fl}
        → allow_try now s.b s.b ≡ some (b, (t, true))
        → s.b.cur.gen + 1 < 2 ^ 64
        → Step s (record { b = b; out = t ∷ s.out })
    refuses :
        (now : ℕ) (t : Ticket) {s : Running fl} {b : Breaker fl}
        → allow_try now s.b s.b ≡ some (b, (t, false))
        → Step s (record { b = b; out = s.out })
    ends :
        (t : Ticket) (o : Outcome) (now : ℕ) (xs ys : List Ticket) {s : Running fl} {b : Breaker fl}
        → s.out ≡ xs ++ (t ∷ ys)
        → record_ticket (some s.b) t o now ≡ some b
        → s.b.cur.gen + 1 < 2 ^ 64
        → Step s (record { b = b; out = xs ++ ys })

  pub data Reach (s : Running fl) : Running fl → Type 0 where
    here : Reach s s
    next : {t u : Running fl} → Reach s t → Step t u → Reach s u

  -- At most `m + 1` probes hold or have used a slot of the half-open generation, and the breaker is
  -- undecided while fewer have succeeded; elsewhere no probe of this generation is out.
  pub record Slots (m : ℕ) (b : Breaker fl) (out : List Ticket) : Type 0 where
    pub probes_cap : b.max_probes ≡ pos (suc m)
    pub within : b.cur.state ≡ half_open → b.cur.probes ≤ suc m
    pub undecided : b.cur.state ≡ half_open → b.cur.successes ≤ m
    pub counted : b.cur.state ≡ half_open → b.cur.probes ≡ held b.cur.gen out + b.cur.successes
    pub no_slots : b.cur.state ≢ half_open → held b.cur.gen out ≡ 0

  pub record Inv (m : ℕ) (s : Running fl) : Type 0 where
    pub slots : Slots m s.b s.out
    pub known : All (λ t. t.gen ≤ s.b.cur.gen) s.out

held-append : (g : ℕ) (xs ys : List Ticket) → held g (xs ++ ys) ≡ held g xs + held g ys
held-append g [] ys = omega arith
held-append g (x ∷ xs) ys = omega (arith, held-append g xs ys)

-- Nothing holds a slot of a generation that has not begun.
held_later : (g k : ℕ) (ts : List Ticket) → All (λ t. t.gen ≤ g) ts → g < k → held k ts ≡ 0
held_later g k [] h lt = refl
held_later g k (t ∷ ts) h lt = ground (arith, held_later g k ts h.1 lt)

known_later :
    (g k : ℕ) (ts : List Ticket) → All (λ t. t.gen ≤ g) ts → g ≤ k → All (λ t. t.gen ≤ k) ts
known_later g k [] h le = tt
known_later g k (t ∷ ts) h le = (omega arith, known_later g k ts h.1 le)

known_without :
    (g : ℕ) (t : Ticket) (xs ys : List Ticket)
    → All (λ t. t.gen ≤ g) (xs ++ (t ∷ ys))
    → All (λ t. t.gen ≤ g) (xs ++ ys) × (t.gen ≤ g)
known_without g t [] ys h = (h.1, h.0)
known_without g t (x ∷ xs) ys h = let (rest, le) = known_without g t xs ys h.1 in ((h.0, rest), le)

module _ {fl : Float64} where
  admit-Slots :
      (st : BreakerState) (m : ℕ) (b b' : Breaker fl) (out : List Ticket) (t : Ticket)
      → b.cur.state ≡ st
      → Slots m b out
      → All (λ t. t.gen ≤ b.cur.gen) out
      → Admitted st b b' t
      → b'.max_probes ≡ b.max_probes
      → b.cur.gen + 1 < 2 ^ 64
      → Slots m b' (t ∷ out) × (b.cur.gen ≤ b'.cur.gen) × (t.gen ≤ b'.cur.gen)
  admit-Slots closed m b b' out t h v k a c g = ground arith
  admit-Slots open_state m b b' out t h v k a c g =
      ground (arith, held_later b.cur.gen (b.cur.gen + 1) out k)
  admit-Slots half_open m b b' out t h v k a c g = ground arith

  probe-Slots :
      (o : Outcome) (m now : ℕ) (b b' : Breaker fl) (xs ys : List Ticket) (t : Ticket)
      → Slots m b (xs ++ (t ∷ ys))
      → All (λ t. t.gen ≤ b.cur.gen) (xs ++ ys)
      → t.probe ≡ true
      → b'.max_probes ≡ b.max_probes
      → ((b.cur.state ≡ half_open) × (b.cur.gen ≡ t.gen) × Probed o now b b')
        ⊎ (((b.cur.state ≢ half_open) ⊎ (b.cur.gen ≢ t.gen)) × (b'.cur ≡ b.cur))
      → b.cur.gen + 1 < 2 ^ 64
      → Slots m b' (xs ++ ys) × (b.cur.gen ≤ b'.cur.gen)
  probe-Slots ignored m now b b' xs ys t v k p c a g =
      ground (arith, held-append b.cur.gen xs (t ∷ ys), held-append b.cur.gen xs ys)
  probe-Slots failure m now b b' xs ys t v k p c a g = ground (
    arith,
    held-append b.cur.gen xs (t ∷ ys),
    held-append b.cur.gen xs ys,
    held_later b.cur.gen (b.cur.gen + 1) (xs ++ ys) k,
  )
  probe-Slots success m now b b' xs ys t v k p c a g = ground (
    arith,
    held-append b.cur.gen xs (t ∷ ys),
    held-append b.cur.gen xs ys,
    held_later b.cur.gen (b.cur.gen + 1) (xs ++ ys) k,
  )

  plain-Slots :
      (m now : ℕ) (b b' : Breaker fl) (xs ys : List Ticket) (t : Ticket)
      → Slots m b (xs ++ (t ∷ ys))
      → All (λ t. t.gen ≤ b.cur.gen) (xs ++ ys)
      → t.probe ≡ false
      → b'.max_probes ≡ b.max_probes
      → (b'.cur ≡ b.cur)
        ⊎ ((b.cur.state ≡ closed)
            × (b'.cur ≡ record (fresh open_state (u64 (b.cur.gen + 1))) { opened_at = now }))
      → b.cur.gen + 1 < 2 ^ 64
      → Slots m b' (xs ++ ys) × (b.cur.gen ≤ b'.cur.gen)
  plain-Slots m now b b' xs ys t v k p c a g = ground (
    arith,
    held-append b.cur.gen xs (t ∷ ys),
    held-append b.cur.gen xs ys,
    held_later b.cur.gen (b.cur.gen + 1) (xs ++ ys) k,
  )

  ticket-Slots :
      (m now : ℕ) (b b' : Breaker fl) (xs ys : List Ticket) (t : Ticket) (o : Outcome)
      → Slots m b (xs ++ (t ∷ ys))
      → All (λ t. t.gen ≤ b.cur.gen) (xs ++ ys)
      → record_ticket (some b) t o now ≡ some b'
      → b.cur.gen + 1 < 2 ^ 64
      → Slots m b' (xs ++ ys) × (b.cur.gen ≤ b'.cur.gen)
  unfolding record_ticket probe_try
  ticket-Slots m now b b' xs ys t o v k e g = elim (Bool-cases t.probe) [
    | inl p ↦
        let (same, what) = probe-cases o now b b' t (rw p at e) in
        probe-Slots o m now b b' xs ys t v k p same what g
    | inr p ↦
        let (same, what) = plain-cases o now b b' t p e in
        plain-Slots m now b b' xs ys t v k p same what g
  ]

  -- Whatever requests run beside each other, a half-open breaker has handed out no more slots than
  -- it has probes, each held by a request or used up by a success.
  pub Step-Inv : (m : ℕ) {s u : Running fl} → Step s u → Inv m s → Inv m u
  unfolding allow_try
  Step-Inv m (admits now t {s} {b} e g) v =
      let (a, same) = admit-cases s.b.cur.state now s.b b t e in
      let (slots, grows, le) =
        admit-Slots s.b.cur.state m s.b b s.out t refl v.slots v.known a same g in
      record { slots = slots; known = (le, known_later s.b.cur.gen b.cur.gen s.out v.known grows) }
  Step-Inv m (refuses now t {s} {b} e) v =
      let same = refuse-cases s.b.cur.state now s.b b t e in rw same v
  Step-Inv m (ends t o now xs ys {s} {b} out e g) v =
      let (known, _) = known_without s.b.cur.gen t xs ys (rw out at v.known) in
      let (slots, grows) = ticket-Slots m now s.b b xs ys t o (rw out at v.slots) known e g in
      record { slots = slots; known = known_later s.b.cur.gen b.cur.gen (xs ++ ys) known grows }

  pub Reach-Inv : (m : ℕ) {s u : Running fl} → Reach s u → Inv m s → Inv m u
  Reach-Inv m here v = v
  Reach-Inv m (next r st) v = Step-Inv m st (Reach-Inv m r v)

  -- From a new breaker on, whatever requests are admitted, refused and reported in whatever order
  -- (fewer than 2^64 state changes), a half-open breaker has handed out at most `max_probes` slots
  -- since it became half-open; each of them is held by a request still out or was used up by a
  -- success, and fewer than `max_probes` have succeeded.
  pub half_open-bounded :
      (m : ℕ) (cfg : TargetConfig fl) (b : Breaker fl) (u : Running fl)
      → new_breaker cfg ≡ some b
      → b.max_probes ≡ pos (suc m)
      → Reach (record { b = b; out = [] }) u
      → u.b.cur.state ≡ half_open
      → (u.b.cur.probes ≤ suc m)
        × (u.b.cur.successes ≤ m)
        × (u.b.cur.probes ≡ held u.b.cur.gen u.out + u.b.cur.successes)
  unfolding new_breaker
  half_open-bounded m cfg b u new cap r half =
      let start : b.cur ≡ fresh closed 0 = ground (arith, new) in
      let none_out : Slots m b [] = record {
        probes_cap = cap;
        within = λ h. ground (arith, start, h);
        undecided = λ h. ground (arith, start, h);
        counted = λ h. ground (arith, start, h);
        no_slots = λ h. refl;
      } in
      let v = Reach-Inv m r (record { slots = none_out; known = tt }) in
      (v.slots.within half, v.slots.undecided half, v.slots.counted half)
