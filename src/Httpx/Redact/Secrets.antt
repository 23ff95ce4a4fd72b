-- ===== src/Httpx/Redact/Secrets.antt =====
-- libs/httpx/redact.go: what is shown of a configuration does not depend on its secrets.
use golang_basics.Base.{
  ℕ, Bool, true, false, not, ◌&&◌, ◌||◌, some, List, ◌∷◌, String, str_eq, is_empty, ◌≡◌, refl, ap,
  ap₂, arith,
}
use golang_basics.Httpx.Redact.{
  StructField, Value, pointer, struct, blob, slice, map_of, text, scalar, Values, no_values, value,
  Entries, no_entries, entry, Fields, no_fields, field, str, array, object, item, Members,
  no_members, field_name, is_inlined, is_secret, redact_value, redact_values, redact_entries,
  redact_fields, redact,
}
use golang_basics.Httpx.Redact.Urls.{Url, Libs}
use golang_basics.Httpx.Redact.Masked.{SameUrl, redact_url-same}

-- Whether the value of a field is to be hidden: its tag decides, else the name or what it lies in.
unfoldable pub hides : Libs → Bool → StructField → Bool
hides l inherited f =
    str_eq f.secret "true"
    || (not (str_eq f.secret "false") && (l.secret_field f.name || inherited))

-- Values that differ at most in what is secret; the first index is whether they lie under a secret
-- name.
mutual
  pub data SameValue (l : Libs) : Bool → Value → Value → Type 0 where
    same_value : {s : Bool} {v : Value} → SameValue l s v v
    same_pointer :
        {s : Bool} {v w : Value} → SameValue l s v w → SameValue l s (pointer v) (pointer w)
    same_struct :
        {s : Bool} {fs gs : Fields} → SameFields l s fs gs → SameValue l s (struct fs) (struct gs)
    same_slice :
        {s : Bool} {vs ws : Values} → SameValues l s vs ws → SameValue l s (slice vs) (slice ws)
    same_map :
        {s : Bool} {es ds : Entries} → SameEntries l s es ds → SameValue l s (map_of es) (map_of ds)
    secret_blob : {a b : ℕ} {xs ys : List ℕ} → SameValue l true (blob (a ∷ xs)) (blob (b ∷ ys))
    secret_text :
        {s t : String}
        → is_empty s ≡ false
        → is_empty t ≡ false
        → SameValue l true (text s) (text t)
    secret_scalar : {s t : String} → SameValue l true (scalar false s) (scalar false t)
    same_url :
        {s t : String} {u v : Url}
        → l.contains s "://" ≡ true
        → l.contains t "://" ≡ true
        → l.parse s ≡ some u
        → l.parse t ≡ some v
        → SameUrl l u v
        → SameValue l false (text s) (text t)

  pub data SameValues (l : Libs) : Bool → Values → Values → Type 0 where
    same_nil : {s : Bool} → SameValues l s no_values no_values
    same_cons :
        {s : Bool} {v w : Value} {vs ws : Values}
        → SameValue l s v w
        → SameValues l s vs ws
        → SameValues l s (value v vs) (value w ws)

  pub data SameEntries (l : Libs) : Bool → Entries → Entries → Type 0 where
    same_none : {s : Bool} → SameEntries l s no_entries no_entries
    same_entry :
        {s : Bool} {v w : Value} {es ds : Entries} (k : String)
        → SameValue l (s || l.secret_field k) v w
        → SameEntries l s es ds
        → SameEntries l s (entry k v es) (entry k w ds)

  pub data SameFields (l : Libs) : Bool → Fields → Fields → Type 0 where
    same_done : {s : Bool} → SameFields l s no_fields no_fields
    same_field :
        {s : Bool} {v w : Value} {fs gs : Fields} (f : StructField)
        → is_inlined f v ≡ false
        → is_inlined f w ≡ false
        → SameValue l (hides l s f) v w
        → SameFields l s fs gs
        → SameFields l s (field f v fs) (field f w gs)
    same_inlined :
        {s : Bool} {hs ks fs gs : Fields} (f : StructField)
        → is_inlined f (struct hs) ≡ true
        → SameFields l s hs ks
        → SameFields l s fs gs
        → SameFields l s (field f (struct hs) fs) (field f (struct ks) gs)
    not_shown :
        {s : Bool} {v w : Value} {fs gs : Fields} (f : StructField)
        → (not f.is_exported || str_eq (field_name f) "-") ≡ true
        → SameFields l s fs gs
        → SameFields l s (field f v fs) (field f w gs)

is_secret-hides : (l : Libs) (f : StructField) (s : Bool) → is_secret l f s ≡ hides l s f
unfolding is_secret hides
is_secret-hides l f s = ground arith

mutual
  unfolding redact_value

  value-same :
      {l : Libs} {s : Bool} {v w : Value}
      → SameValue l s v w
      → redact_value l v s ≡ redact_value l w s
  value-same same_value = refl
  value-same (same_pointer h) = value-same h
  value-same (same_struct h) = ap object (fields-same h no_members)
  value-same (same_slice h) = ap array (values-same h)
  value-same (same_map h) = ap object (entries-same h no_members)
  value-same secret_blob = refl
  value-same (secret_text e f) = rw (e, f)
  value-same secret_scalar = refl
  value-same (same_url c d p q h) = ap str (redact_url-same _ _ c d p q h)

  values-same :
      {l : Libs} {s : Bool} {vs ws : Values}
      → SameValues l s vs ws
      → redact_values l vs s ≡ redact_values l ws s
  values-same same_nil = refl
  values-same (same_cons h k) = ap₂ item (value-same h) (values-same k)

  entries-same :
      {l : Libs} {s : Bool} {es ds : Entries}
      → SameEntries l s es ds
      → (out : Members) → redact_entries l es s out ≡ redact_entries l ds s out
  entries-same same_none out = refl
  entries-same (same_entry k h t) out = rw (value-same h, entries-same t)

  fields-same :
      {l : Libs} {s : Bool} {fs gs : Fields}
      → SameFields l s fs gs
      → (out : Members) → redact_fields l fs s out ≡ redact_fields l gs s out
  fields-same same_done out = refl
  fields-same {l} {s} (same_field f e g h t) out =
      rw (e, g, is_secret-hides l f s, value-same h, fields-same t)
  fields-same (same_inlined f e h t) out = rw (e, fields-same h no_members, fields-same t)
  fields-same (not_shown f e t) out = rw (e, fields-same t)

-- A configuration is shown as another when they differ at most in what a name, a tag, a password of
-- a URL or a query of one says is secret, and the same secrets are empty: the values of secret texts,
-- bytes and numbers, not the times, the durations, the lengths of lists and the keys of maps.
pub redact-same :
    {l : Libs} {v w : Value} → SameValue l false v w → redact l (some v) ≡ redact l (some w)
unfolding redact
redact-same h = value-same h
