-- ===== src/Httpx/Request/Hops.antt =====
-- libs/httpx/middleware.go: whom the server believes on the client's address.
use mathlib.Core.List.{reverse-append, append_assoc}
use golang_basics.Base.{
  ℕ, ◌≡◌, refl, ◌⊎◌, inl, inr, Bool, true, false, Option, none, some, List, [], ◌∷◌, ◌++◌, reverse,
  ◌==◌, trim_space, Bool-cases, Option-cases,
}
use golang_basics.Httpx.Request.{
  Network, is_trusted, walk_hops, client_ip, join, split, split_from, comma,
}

split_from-comma :
    (piece a b : List ℕ) → split_from piece (a ++ (comma ∷ b)) ≡ split_from piece a ++ split b
unfolding split_from
split_from-comma piece [] b = refl
split_from-comma piece (c ∷ cs) b = elim (Bool-cases (c == comma)) [
  | inl e ↦ rw (e, split_from-comma [] cs b) refl
  | inr e ↦ rw (e, split_from-comma (c ∷ piece) cs b) refl
]

-- Joined lines read as one list of hops.
join-append :
    (v w : List ℕ) (vs ws : List (List ℕ))
    → split (join ((v ∷ vs) ++ (w ∷ ws))) ≡ split (join (v ∷ vs)) ++ split (join (w ∷ ws))
unfolding join
join-append v w [] ws = split_from-comma [] v (join (w ∷ ws))
join-append v w (u ∷ us) ws =
    rw
      (
        split_from-comma [] v (join ((u ∷ us) ++ (w ∷ ws))),
        split_from-comma [] v (join (u ∷ us)),
        join-append u w us ws,
        append_assoc,
      )
      refl

module _ (net : Network) where
  open net use {Addr, parse}

  -- A hop that ends the walk: it is no address, or that of no trusted proxy.
  abbrev pub IsEnd : List ℕ → Type 0
  IsEnd hop = elim (parse (trim_space hop)) [
    | none ↦ Unit
    | some a ↦ is_trusted net (some a) ≡ false
  ]

  abbrev pub HasEnd : List (List ℕ) → Type 0
  HasEnd [] = ⊥
  HasEnd (hop ∷ hops) = IsEnd hop ⊎ HasEnd hops

  trusted_end : (a : Addr) → is_trusted net (some a) ≡ true → is_trusted net (some a) ≡ false → ⊥
  trusted_end a t f = cc

  walk_hops-append :
      (peer : Option Addr) (near far : List (List ℕ))
      → HasEnd near
      → walk_hops net peer (near ++ far) ≡ walk_hops net peer near
  unfolding walk_hops
  walk_hops-append peer [] far h = absurd h
  walk_hops-append peer (hop ∷ near) far h = elim (Option-cases (parse (trim_space hop))) [
    | inl e ↦ rw (e, walk_hops) refl
    | inr (a, e) ↦ elim (Bool-cases (is_trusted net (some a))) [
      | inl t ↦
          let more : HasEnd near = elim h [
            | inl end ↦ absurd (trusted_end a t (rw (e, IsEnd) at end))
            | inr m ↦ m
          ] in
          rw (e, t, walk_hops) (walk_hops-append peer near far more)
      | inr f ↦ rw (e, f, walk_hops) refl
    ]
  ]

  HasEnd-left : (xs ys : List (List ℕ)) → HasEnd xs → HasEnd (xs ++ ys)
  HasEnd-left (x ∷ xs) ys (inl e) = inl e
  HasEnd-left (x ∷ xs) ys (inr m) = inr (HasEnd-left xs ys m)
  HasEnd-left [] ys m = absurd m

  HasEnd-right : (xs ys : List (List ℕ)) → HasEnd ys → HasEnd (xs ++ ys)
  HasEnd-right [] ys m = m
  HasEnd-right (x ∷ xs) ys m = inr (HasEnd-right xs ys m)

  HasEnd-reverse : (xs : List (List ℕ)) → HasEnd xs → HasEnd (reverse xs)
  HasEnd-reverse [] m = absurd m
  HasEnd-reverse (x ∷ xs) (inl e) =
      rw (reverse-append (x ∷ []) xs) (HasEnd-right (reverse xs) (x ∷ []) (inl e))
  HasEnd-reverse (x ∷ xs) (inr m) =
      rw (reverse-append (x ∷ []) xs) (HasEnd-left (reverse xs) (x ∷ []) (HasEnd-reverse xs m))

  walk_hops-untrusted :
      (peer : Option Addr) (hops : List (List ℕ))
      → (walk_hops net peer hops ≡ peer) ⊎ (is_trusted net (walk_hops net peer hops) ≡ false)
  unfolding walk_hops
  walk_hops-untrusted peer [] = inl refl
  walk_hops-untrusted peer (hop ∷ hops) = elim (Option-cases (parse (trim_space hop))) [
    | inl e ↦ rw (e, walk_hops) (inl refl)
    | inr (a, e) ↦ elim (Bool-cases (is_trusted net (some a))) [
      | inl t ↦ rw (e, t, walk_hops) (walk_hops-untrusted peer hops)
      | inr f ↦ rw (e, f, walk_hops) (inr f)
    ]
  ]

  -- Behind a trusted proxy, as far as a hop that the proxies added ends the walk, lines that a client
  -- sent before theirs change nothing; and whoever the peer is, the address is the peer's or no
  -- trusted proxy's.
  pub client_ip-forged :
      (peer : Option Addr) (trusted : Bool) (f v : List ℕ) (fs vs : List (List ℕ))
      → HasEnd (split (join (v ∷ vs)))
      → (client_ip net ((f ∷ fs) ++ (v ∷ vs)) peer trusted ≡ client_ip net (v ∷ vs) peer trusted)
        × ((client_ip net (v ∷ vs) peer trusted ≡ peer)
            ⊎ (is_trusted net (client_ip net (v ∷ vs) peer trusted) ≡ false))
  unfolding client_ip
  client_ip-forged peer false f v fs vs h = (refl, inl refl)
  client_ip-forged peer true f v fs vs h = (
    rw (join-append f v fs vs, reverse-append (split (join (f ∷ fs))) (split (join (v ∷ vs))))
        (walk_hops-append peer (reverse (split (join (v ∷ vs)))) (reverse (split (join (f ∷ fs))))
          (HasEnd-reverse (split (join (v ∷ vs))) h)),
    walk_hops-untrusted peer (reverse (split (join (v ∷ vs)))),
  )
