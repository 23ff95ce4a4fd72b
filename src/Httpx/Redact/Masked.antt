-- ===== src/Httpx/Redact/Masked.antt =====
-- libs/httpx/redact.go: what is shown of a URL does not depend on its secrets.
use golang_basics.Base.{
  Bool, true, false, not, ◌||◌, Option, none, some, List, [], ◌∷◌, String, is_empty, ◌≡◌, refl, ap,
  ◌∙◌, sym, ◌⊎◌, inl, inr, Bool-cases, arith,
}
use golang_basics.Httpx.Redact.Urls.{
  Url, Libs, mask_query, mask_raw_query, is_some, encoded, mask_url, redact_url,
}

-- Queries with the same keys in the same order, and the same values but under the secret keys.
pub data SameQuery (l : Libs)
    : List (String × List String) → List (String × List String) → Type 0 where
  same_end : SameQuery l [] []
  same_key :
      {q r : List (String × List String)} (k : String) (vs : List String)
      → SameQuery l q r
      → SameQuery l ((k, vs) ∷ q) ((k, vs) ∷ r)
  secret_key :
      {q r : List (String × List String)} (k : String) (vs ws : List String)
      → l.secret_param k ≡ true
      → SameQuery l q r
      → SameQuery l ((k, vs) ∷ q) ((k, ws) ∷ r)

abbrev pub HasSecret : Libs → List (String × List String) → Type 0
HasSecret l [] = ⊥
HasSecret l ((k, vs) ∷ q) = (l.secret_param k ≡ true) ⊎ HasSecret l q

-- Queries as texts, with a key that is secret and the same but for such keys.
pub record SecretQuery (l : Libs) (s t : String) : Type 0 where
  pub left_query : List (String × List String)
  pub right_query : List (String × List String)
  pub left_given : is_empty s ≡ false
  pub right_given : is_empty t ≡ false
  pub left_parsed : l.query s ≡ left_query
  pub right_parsed : l.query t ≡ right_query
  pub has_secret : HasSecret l left_query
  pub agrees : SameQuery l left_query right_query

-- URLs that differ at most in the password and in such queries.
pub data SameUrl (l : Libs) : Url → Url → Type 0 where
  other_query :
      {q r : String} (o : Option (String × Option String)) (rest : String)
      → SecretQuery l q r
      → SameUrl l
          (record { user = o; raw_query = q; rest = rest })
          (record { user = o; raw_query = r; rest = rest })
  other_password :
      {q r : String} (name p p' rest : String)
      → (q ≡ r) ⊎ SecretQuery l q r
      → SameUrl l
          (record { user = some (name, some p); raw_query = q; rest = rest })
          (record { user = some (name, some p'); raw_query = r; rest = rest })

mask_query-same :
    {l : Libs} {q r : List (String × List String)}
    → SameQuery l q r
    → mask_query l q ≡ mask_query l r
unfolding mask_query
mask_query-same same_end = refl
mask_query-same (same_key k vs h) = rw (mask_query-same h)
mask_query-same (secret_key k vs ws m h) = rw (m, mask_query-same h)

mask_query-changed :
    (l : Libs) (q : List (String × List String)) → HasSecret l q → (mask_query l q).1 ≡ true
unfolding mask_query
mask_query-changed l ((k, vs) ∷ q) (inl e) = rw e refl
mask_query-changed l ((k, vs) ∷ q) (inr h) = elim (Bool-cases (l.secret_param k)) [
  | inl e ↦ rw e refl
  | inr e ↦ rw (e, mask_query-changed l q h) refl
]
mask_query-changed l [] h = absurd h

encoded-changed :
    (l : Libs) (raw : String) (m : List (String × List String) × Bool)
    → m.1 ≡ true
    → encoded l raw m ≡ l.encode m.0
encoded-changed l raw (q, true) h = refl
encoded-changed l raw (q, false) h = ground arith

mask_raw_query-encodes :
    (l : Libs) (s : String) (q : List (String × List String))
    → is_empty s ≡ false
    → l.query s ≡ q
    → (mask_query l q).1 ≡ true
    → mask_raw_query l s ≡ l.encode ((mask_query l q).0)
unfolding mask_raw_query
mask_raw_query-encodes l s q e p m = rw (e, p, encoded-changed l s (mask_query l q) m)

mask_raw_query-same :
    {l : Libs} {s t : String} → SecretQuery l s t → mask_raw_query l s ≡ mask_raw_query l t
mask_raw_query-same {l} {s} {t} h =
    let e = mask_query-same h.agrees in
    let changed = mask_query-changed l h.left_query h.has_secret in
    mask_raw_query-encodes l s h.left_query h.left_given h.left_parsed changed
    ∙ ap (λ q. l.encode q.0) e
    ∙ sym (
        mask_raw_query-encodes l t h.right_query h.right_given h.right_parsed
          (ap (λ q. q.1) (sym e) ∙ changed))

mask_url-same : {l : Libs} {u v : Url} → SameUrl l u v → mask_url l u ≡ mask_url l v
unfolding mask_url
mask_url-same (other_query o rest h) = rw (mask_raw_query-same h)
mask_url-same (other_password name p p' rest (inl e)) = rw e
mask_url-same (other_password name p p' rest (inr h)) = rw (mask_raw_query-same h)

abbrev is_shown : Url → Bool
is_shown u = is_some u.user || not (is_empty u.raw_query)

shown_given :
    (o : Option (String × Option String)) (s : String)
    → is_empty s ≡ false
    → (is_some o || not (is_empty s)) ≡ true
shown_given none s e = rw e
shown_given (some u) s e = refl

SameUrl-shown : {l : Libs} {u v : Url} → SameUrl l u v → (is_shown u ≡ true) × (is_shown v ≡ true)
SameUrl-shown (other_query o rest h) = (shown_given o _ h.left_given, shown_given o _ h.right_given)
SameUrl-shown (other_password name p p' rest h) = (refl, refl)

redact_url-parsed :
    (l : Libs) (s : String) (u : Url)
    → l.contains s "://" ≡ true
    → l.parse s ≡ some u
    → is_shown u ≡ true
    → redact_url l s ≡ l.print (mask_url l u)
unfolding redact_url
redact_url-parsed l s u c p h = rw (c, p, h)

pub redact_url-same :
    {l : Libs} (s t : String) {u v : Url}
    → l.contains s "://" ≡ true
    → l.contains t "://" ≡ true
    → l.parse s ≡ some u
    → l.parse t ≡ some v
    → SameUrl l u v
    → redact_url l s ≡ redact_url l t
redact_url-same {l} s t {u} {v} c d p q h =
    redact_url-parsed l s u c p (SameUrl-shown h).0
    ∙ ap l.print (mask_url-same h)
    ∙ sym (redact_url-parsed l t v d q (SameUrl-shown h).1)
