-- ===== src/Httpx/Redact/Urls.antt =====
-- libs/httpx/redact.go: the secrets in URLs and in the texts of connections.
use golang_basics.Base.{
  Bool, true, false, not, ◌&&◌, ◌||◌, Option, none, some, List, [], ◌∷◌, String, is_empty,
  if◌then◌else◌,
}
use golang_basics.Base.Int.{ℤ}

-- A URL as net/url parses it: the user with a password, the query, and what is left.
pub record Url : Type 0 where
  pub user : Option (String × Option String)
  pub raw_query : String
  pub rest : String

-- What the code takes from strings, regexp, net/url and time. `secret_field`, `secret_param`,
-- `has_userinfo` and `has_dsn_pair` say whether the code's expressions match; `mask_userinfo` and
-- `mask_dsn` replace what they match. A query is the list of its keys with their values.
pub record Libs : Type 0 where
  pub contains : String → String → Bool
  pub secret_field : String → Bool
  pub secret_param : String → Bool
  pub has_userinfo : String → Bool
  pub mask_userinfo : String → String
  pub has_dsn_pair : String → Bool
  pub mask_dsn : String → String
  pub parse : String → Option Url
  pub print : Url → String
  pub query : String → List (String × List String)
  pub encode : List (String × List String) → String
  pub print_duration : ℤ → String

abbrev pub redacted_value : String
redacted_value = "[redacted]"

-- `q.Set` under the keys that match.
unfoldable pub mask_query : Libs → List (String × List String) → List (String × List String) × Bool
mask_query l [] = ([], false)
mask_query l ((k, vs) ∷ q) =
    let (rest, changed) = mask_query l q in
    if l.secret_param k then ((k, redacted_value ∷ []) ∷ rest, true) else ((k, vs) ∷ rest, changed)

abbrev mask_password : Option (String × Option String) → Option (String × Option String)
mask_password none = none
mask_password (some (name, none)) = some (name, none)
mask_password (some (name, some password)) = some (name, some "xxxxx")

abbrev pub encoded : Libs → String → List (String × List String) × Bool → String
encoded l raw (q, true) = l.encode q
encoded l raw (q, false) = raw

unfoldable pub mask_raw_query : Libs → String → String
unfolding mask_query
mask_raw_query l raw = if is_empty raw then raw else encoded l raw (mask_query l (l.query raw))

unfoldable pub mask_url : Libs → Url → Url
unfolding mask_raw_query
mask_url l u = record u { user = mask_password u.user; raw_query = mask_raw_query l u.raw_query }

abbrev pub is_some {ℓ} : {A : Type ℓ} → Option A → Bool
is_some none = false
is_some (some a) = true

abbrev redact_parsed : Libs → String → Option Url → String
redact_parsed l s none = if l.has_userinfo s then l.mask_userinfo s else s
redact_parsed l s (some u) =
    if is_some u.user || not (is_empty u.raw_query) then l.print (mask_url l u) else s

unfoldable pub redact_url : Libs → String → String
unfolding mask_url
redact_url l s =
    if l.contains s "://"
    then redact_parsed l s (l.parse s)
    else if l.contains s "=" && l.has_dsn_pair s
    then l.mask_dsn s
    else s
