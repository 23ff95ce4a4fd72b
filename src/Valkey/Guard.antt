-- ===== src/Valkey/Guard.antt =====
-- libs/valkey/aside.go: a tombstone against the fills of readers that loaded before it.
use golang_basics.Base.{
  Result, ℕ, ◌+◌, ◌-◌, ◌*◌, ◌/◌, ◌≤◌, ◌<◌, ◌==◌, ◌≡◌, ◌≢◌, refl, sym, ap, ◌∙◌, inl, inr, Bool, true,
  false, Option, none, some, List, [], ◌∷◌, String, str_eq, eq_iff, subst, arith, Bool-cases,
  Option-cases, if◌then◌else◌,
}
use golang_basics.Base.Int.{ℤ, pos, pos_part, leb_ℤ}
use golang_basics.Tasks.Store.Rows.{str_ne}
use golang_basics.Valkey.Server.{
  Server, IsServer, Fate, answered, unsent, unanswered, of_value, px, not_positive, get, set,
  set_nx, tombstone, tombstone_value, sent, of_nx,
}
use golang_basics.Valkey.Aside.{jitter, Codec, Read, loaded, flight, aside_with, cached, aside}

-- A jittered ttl is within a tenth of the ttl, and positive when the ttl is, so that the fill of a
-- cache with a positive ttl is never refused; the random number is below its bound.
pub jitter-near :
    (int64n : ℕ → ℕ) (ttl : ℕ)
    → ((n : ℕ) → 1 ≤ n → int64n n < n)
    → (t : ℕ) × (jitter int64n (pos ttl) ≡ pos t)
      × (ttl - ttl / 10 ≤ t)
      × (t ≤ ttl + ttl / 10)
      × (1 ≤ ttl → 1 ≤ t)
unfolding jitter
jitter-near int64n ttl h = elim (Bool-cases (ttl / 10 == 0)) [
  | inl b ↦ (ttl, simp b refl, omega arith, omega arith, λ p. p)
  | inr b ↦
      let r = h (2 * (ttl / 10) + 1) (omega arith) in
      (
        ttl + int64n (2 * (ttl / 10) + 1) - ttl / 10,
        simp b refl,
        omega arith,
        omega (arith, r),
        λ p. omega (arith, p),
      )
]

-- What others do to the cache meanwhile: a fill with whatever value, or another invalidation.
pub data Event : Type 0 where
  filled : String → String → ℤ → Fate → Event
  invalidated : String → Fate → Event

clash : {A B : Type 0} {o : Option A} {a : A} → o ≡ none → o ≡ some a → B
clash h g = ground (arith, h, g)

-- The events come in the order of time, from `now` to `at`.
abbrev pub IsTimed : ℕ → ℕ → List (Event × ℕ) → Type 0
IsTimed now at [] = now ≤ at
IsTimed now at ((ev, t) ∷ evs) = (now ≤ t) × IsTimed t at evs

IsTimed-le : (now at : ℕ) (evs : List (Event × ℕ)) → IsTimed now at evs → now ≤ at
IsTimed-le now at [] h = h
IsTimed-le now at ((ev, t) ∷ evs) (h, hs) = omega (arith, h, IsTimed-le t at evs hs)

module _ {S : Type 0} (server : Server S) where
  -- The invalidations all have the service's one ttl.
  abbrev pub happen : ℤ → Event → ℕ → S → S
  happen ttl (filled key value life fate) now s = (set_nx server key value life fate now s).1
  happen ttl (invalidated key fate) now s = (tombstone server key ttl fate now s).1

  abbrev pub happen_all : ℤ → List (Event × ℕ) → S → S
  happen_all ttl [] s = s
  happen_all ttl ((ev, now) ∷ evs) s = happen_all ttl evs (happen ttl ev now s)

module _ {S : Type 0} (server : Server S) (law : IsServer server) where
  -- From `now` until `end` the key reads as the tombstone.
  abbrev IsDead : String → ℕ → ℕ → S → Type 0
  IsDead key now end s = (at : ℕ) → now ≤ at → at < end → server.get key at s ≡ some tombstone_value

  set_px-IsDead :
      (key other value : String) (ttl now end : ℕ) (s : S)
      → other ≢ key
      → IsDead key now end s
      → IsDead key now end (server.set_px other value ttl now s)
  set_px-IsDead key other value ttl now end s ne d at lo hi =
      law.get_other key other value ttl now at s ne lo ∙ d at lo hi

  set_nx_px-IsDead :
      (key other value : String) (ttl now end : ℕ) (s : S)
      → now < end
      → IsDead key now end s
      → IsDead key now end (server.set_nx_px other value ttl now s).1
  set_nx_px-IsDead key other value ttl now end s l d =
      elim (Option-cases (server.get other now s)) [
        | inr (old, e) ↦ simp (law.nx_taken other old value ttl now s e) d
        | inl e ↦ simp (law.nx_free other value ttl now s e) (
            set_px-IsDead key other value ttl now end s
              (λ same. clash e (ap (λ k. server.get k now s) same ∙ d now (omega arith) l)) d)
      ]

  sent-IsDead :
      (key : String) (now end : ℕ) (fate : Fate) (s s' : S)
      → IsDead key now end s
      → IsDead key now end s'
      → IsDead key now end (sent fate s s')
  sent-IsDead key now end answered s s' d d' = d'
  sent-IsDead key now end unsent s s' d d' = d
  sent-IsDead key now end unanswered s s' d d' = d'

  of_nx-IsDead :
      (key : String) (now end : ℕ) (fate : Fate) (s : S) (r : Bool × S)
      → IsDead key now end s
      → IsDead key now end r.1
      → IsDead key now end (of_nx fate s r).1
  of_nx-IsDead key now end answered s r d d' = d'
  of_nx-IsDead key now end unsent s r d d' = d
  of_nx-IsDead key now end unanswered s r d d' = d'

  if-IsDead :
      {R : Type 0} (key : String) (now end : ℕ) (b : Bool) (x y : R × S)
      → IsDead key now end x.1
      → IsDead key now end y.1
      → IsDead key now end (if b then x else y).1
  if-IsDead key now end true x y d d' = d
  if-IsDead key now end false x y d d' = d'

  tombstone-IsDead :
      (key : String) (ttl now end : ℕ) (s : S)
      → end ≤ now + ttl
      → IsDead key now end (server.set_px key tombstone_value ttl now s)
  tombstone-IsDead key ttl now end s l at lo hi =
      law.get_set_px key tombstone_value ttl now at s lo (omega (arith, l, hi))

  tombstone-sent :
      (key : String) (ttl : ℕ) (fate : Fate) (now : ℕ) (s : S)
      → 1 ≤ ttl
      → (tombstone server key (pos ttl) fate now s).1
        ≡ sent fate s (server.set_px key tombstone_value (px ttl) now s)
  unfolding tombstone set
  tombstone-sent key ttl fate now s h = ground arith

  set_tombstone-IsDead :
      (key other : String) (ttl now end : ℕ) (s : S)
      → end ≤ now + ttl
      → IsDead key now end s
      → IsDead key now end (server.set_px other tombstone_value ttl now s)
  set_tombstone-IsDead key other ttl now end s m d = elim (Bool-cases (str_eq other key)) [
    | inl b ↦
        subst (λ k. IsDead key now end (server.set_px k tombstone_value ttl now s))
          (sym ((eq_iff other key).0 b)) (tombstone-IsDead key ttl now end s m)
    | inr b ↦ set_px-IsDead key other tombstone_value ttl now end s (str_ne b) d
  ]

  happen-IsDead :
      (key : String) (ttl : ℕ) (ev : Event) (now end : ℕ) (s : S)
      → 1 ≤ ttl
      → now < end
      → end ≤ now + px ttl
      → IsDead key now end s
      → IsDead key now end (happen server (pos ttl) ev now s)
  unfolding set_nx
  happen-IsDead key ttl (filled other value life fate) now end s p l m d =
      if-IsDead key now end (leb_ℤ life (pos 0)) (not_positive, s) _ d
        (of_nx-IsDead key now end fate s (server.set_nx_px other value (px (pos_part life)) now s) d
          (set_nx_px-IsDead key other value (px (pos_part life)) now end s l d))
  happen-IsDead key ttl (invalidated other fate) now end s p l m d =
      subst (IsDead key now end) (sym (tombstone-sent other ttl fate now s p))
        (sent-IsDead key now end fate s _ d (set_tombstone-IsDead key other (px ttl) now end s m d))

  happen_all-IsDead :
      (key : String) (ttl : ℕ) (evs : List (Event × ℕ)) (now at end : ℕ) (s : S)
      → 1 ≤ ttl
      → at < end
      → end ≤ now + px ttl
      → IsTimed now at evs
      → IsDead key now end s
      → server.get key at (happen_all server (pos ttl) evs s) ≡ some tombstone_value
  happen_all-IsDead key ttl [] now at end s p l m h d = d at h l
  happen_all-IsDead key ttl ((ev, t) ∷ evs) now at end s p l m (h, hs) d =
      let b = IsTimed-le t at evs hs in
      happen_all-IsDead key ttl evs t at end (happen server (pos ttl) ev t s) p l
        (omega (arith, m, h)) hs
        (happen-IsDead key ttl ev t end s p (omega (arith, b, l)) (omega (arith, m, h))
          (λ n lo hi. d n (omega (arith, h, lo)) hi))

  sent_tombstone-IsDead :
      (key : String) (ttl : ℕ) (fate : Fate) (now : ℕ) (s : S)
      → fate ≢ unsent
      → IsDead key now
          (now + px ttl)
          (sent fate s (server.set_px key tombstone_value (px ttl) now s))
  sent_tombstone-IsDead key ttl answered now s f =
      tombstone-IsDead key (px ttl) now (now + px ttl) s (omega arith)
  sent_tombstone-IsDead key ttl unsent now s f = absurd (f refl)
  sent_tombstone-IsDead key ttl unanswered now s f =
      tombstone-IsDead key (px ttl) now (now + px ttl) s (omega arith)

  cached-dead :
      {A : Type 0} (codec : Codec A) (key : String) (fate : Fate) (now : ℕ) (s : S)
      → server.get key now s ≡ some tombstone_value
      → cached codec (get server key fate now s) ≡ none
  unfolding get
  cached-dead codec key answered now s h = ap (λ o. cached codec (of_value o)) h
  cached-dead codec key unsent now s h = refl
  cached-dead codec key unanswered now s h = refl

  module _ {A E : Type 0} (codec : Codec A) where
    aside-dead :
        (key : String) (life : ℤ) (r : Read E A) (load : Result E A) (s : S)
        → server.get key r.now s ≡ some tombstone_value
        → (aside server codec key life r load s).0
          ≡ loaded server codec r.cancelled (flight server codec r.joined load)
    unfolding aside get
    aside-dead key life r load s h =
        ap (λ o. (aside_with server codec o key life r load s).0)
          (cached-dead codec key r.lookup r.now s h)

    -- Once an invalidation with a positive ttl has reached the server, answered or not, no read of the
    -- key before the ttl is over answers from the cache: whatever fills and invalidations of this and
    -- other keys come between, with whatever values and failures, it answers what the source of truth
    -- has, or the end of its context.
    pub aside-loads :
        (key : String) (ttl : ℕ) (fate : Fate) (now : ℕ) (s : S) (evs : List (Event × ℕ)) (life : ℤ)
        (r : Read E A) (load : Result E A)
        → 1 ≤ ttl
        → fate ≢ unsent
        → IsTimed now r.now evs
        → r.now < now + px ttl
        → (aside server codec key life r load
            (happen_all server (pos ttl) evs (tombstone server key (pos ttl) fate now s).1)).0
          ≡ loaded server codec r.cancelled (flight server codec r.joined load)
    aside-loads key ttl fate now s evs life r load p f h l = aside-dead key life r load _ (
        happen_all-IsDead key ttl evs now r.now (now + px ttl) _ p l (omega arith) h (
          subst (IsDead key now (now + px ttl)) (sym (tombstone-sent key ttl fate now s p))
            (sent_tombstone-IsDead key ttl fate now s f)))
