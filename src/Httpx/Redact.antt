-- ===== src/Httpx/Redact.antt =====
-- libs/httpx/redact.go: the copy of a configuration that GET /admin/config shows.
pub mod Urls
pub mod Masked
pub mod Secrets
use golang_basics.Base.{
  ℕ, Bool, true, false, not, ◌&&◌, ◌||◌, Option, none, some, List, [], ◌∷◌, String, str_eq,
  is_empty, if◌then◌else◌, ◌==◌,
}
use golang_basics.Base.Int.{ℤ}
use Prim.Native.Char.{code}
use golang_basics.Httpx.Redact.Urls.{Libs, redacted_value, redact_url}

-- A field of a struct type; a tag that is missing is empty.
pub record StructField : Type 0 where
  pub name : String
  pub is_exported : Bool
  pub is_anonymous : Bool
  pub yaml : String
  pub json : String
  pub secret : String

-- The kinds of reflect that the code tells apart. `nothing` is a nil pointer, interface, slice or map
-- and the value that is not valid, `blob` a slice or an array of bytes, `scalar` any other value, with
-- whether it is zero and its text; the keys of a map are as keyString gives them, in the order of the
-- iteration.
mutual
  pub data Value : Type 0 where
    nothing : Value
    pointer : Value → Value
    time : String → Value
    struct : Fields → Value
    blob : List ℕ → Value
    slice : Values → Value
    map_of : Entries → Value
    text : String → Value
    duration : ℤ → Value
    scalar : Bool → String → Value

  pub data Values : Type 0 where
    no_values : Values
    value : Value → Values → Values

  pub data Entries : Type 0 where
    no_entries : Entries
    entry : String → Value → Entries → Entries

  pub data Fields : Type 0 where
    no_fields : Fields
    field : StructField → Value → Fields → Fields

-- What is shown; an object is a map without a key twice.
mutual
  pub data Shown : Type 0 where
    null : Shown
    str : String → Shown
    bytes : List ℕ → Shown
    as_is : String → Shown
    array : Items → Shown
    object : Members → Shown

  pub data Items : Type 0 where
    no_items : Items
    item : Shown → Items → Items

  pub data Members : Type 0 where
    no_members : Members
    member : String → Shown → Members → Members

unfoldable pub put : String → Shown → Members → Members
put k v no_members = member k v no_members
put k v (member j w ms) =
    let rest = put k v ms in if str_eq j k then member j v ms else member j w rest

unfoldable pub put_all : Members → Members → Members
unfolding put
put_all no_members out = out
put_all (member k v ms) out = put_all ms (put k v out)

unfoldable pub before_comma : String → String
before_comma String.[] = ""
before_comma (String.◌∷◌ c s) =
    let rest = before_comma s in if code c == 44 then "" else String.◌∷◌ c rest

unfoldable pub names : String → Bool
unfolding before_comma
names tag = let n = before_comma tag in not (is_empty n) && not (str_eq n "-")

unfoldable pub has_name_tag : StructField → Bool
unfolding names
has_name_tag f = names f.yaml || names f.json

unfoldable pub field_name : StructField → String
unfolding before_comma
field_name f =
    if not (is_empty (before_comma f.yaml))
    then before_comma f.yaml
    else if not (is_empty (before_comma f.json))
    then before_comma f.json
    else f.name

-- An embedded time.Time is a struct too.
unfoldable pub is_struct : Value → Bool
is_struct (struct fs) = true
is_struct (time t) = true
is_struct _ = false

unfoldable pub is_inlined : StructField → Value → Bool
unfolding has_name_tag is_struct
is_inlined f v = f.is_anonymous && is_struct v && not (has_name_tag f)

unfoldable pub is_secret : Libs → StructField → Bool → Bool
is_secret l f inherited =
    if str_eq f.secret "true"
    then true
    else if str_eq f.secret "false"
    then false
    else inherited || l.secret_field f.name

abbrev redact_text : Libs → String → Bool → String
redact_text l s true = if is_empty s then "" else redacted_value
redact_text l s false = redact_url l s

abbrev redact_blob : List ℕ → Bool → Shown
redact_blob (b ∷ bs) true = str redacted_value
redact_blob bs secret = bytes bs

abbrev redact_scalar : Bool → String → Bool → Shown
redact_scalar false t true = str redacted_value
redact_scalar is_zero t secret = as_is t

-- The last argument of redact_entries and of redact_fields is `out` so far.
unfoldable mutual
  unfolding redact_url put_all is_inlined is_secret field_name

  pub redact_value : Libs → Value → Bool → Shown
  redact_value l nothing secret = null
  redact_value l (pointer v) secret = redact_value l v secret
  redact_value l (time t) secret = as_is t
  redact_value l (struct fs) secret = object (redact_fields l fs secret no_members)
  redact_value l (blob bs) secret = redact_blob bs secret
  redact_value l (slice vs) secret = array (redact_values l vs secret)
  redact_value l (map_of es) secret = object (redact_entries l es secret no_members)
  redact_value l (text s) secret = str (redact_text l s secret)
  redact_value l (duration d) secret = str (l.print_duration d)
  redact_value l (scalar is_zero t) secret = redact_scalar is_zero t secret

  pub redact_values : Libs → Values → Bool → Items
  redact_values l no_values secret = no_items
  redact_values l (value v vs) secret = item (redact_value l v secret) (redact_values l vs secret)

  pub redact_entries : Libs → Entries → Bool → Members → Members
  redact_entries l no_entries secret out = out
  redact_entries l (entry k v es) secret out =
      redact_entries l es secret (put k (redact_value l v (secret || l.secret_field k)) out)

  -- redactStruct of an embedded struct; a time.Time has no exported field.
  pub redact_inlined : Libs → Value → Bool → Members
  redact_inlined l (struct fs) inherited = redact_fields l fs inherited no_members
  redact_inlined l _ inherited = no_members

  pub redact_fields : Libs → Fields → Bool → Members → Members
  redact_fields l no_fields inherited out = out
  redact_fields l (field f v fs) inherited out =
      let inner = redact_inlined l v inherited in
      let shown = redact_value l v (is_secret l f inherited) in
      redact_fields l fs inherited (
        if not f.is_exported || str_eq (field_name f) "-"
        then out
        else if is_inlined f v
        then put_all inner out
        else put (field_name f) shown out)

-- `none` is the nil of Go.
unfoldable pub redact : Libs → Option Value → Shown
unfolding redact_value
redact l none = null
redact l (some v) = redact_value l v false
