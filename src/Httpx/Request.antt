-- ===== src/Httpx/Request.antt =====
-- libs/httpx/middleware.go and requestid.go: what the server settles before a request runs, its id,
-- the client's address and its budget. Header values are lists of runes; the code's lengths in bytes differ from theirs only
-- where a rune that is not ASCII refuses the value anyway.
pub mod Bounds
pub mod Hops
use golang_basics.Base.{
  ℕ, zero, suc, ◌+◌, ◌-◌, ◌*◌, ◌/◌, ◌%◌, max, Bool, true, false, not, ◌&&◌, ◌||◌, Option, none,
  some, List, [], ◌∷◌, ◌++◌, reverse, length, ltb, leb, ◌==◌, trim_space, if◌then◌else◌,
}
use golang_basics.Base.Decimal.{is_digit, decimal}
use golang_basics.Base.Int.{ℤ, pos, negsuc, ltb_ℤ, pos_part}

abbrev pub max_request_id_len : ℕ
max_request_id_len = 128

unfoldable pub all_printable : List ℕ → Bool
all_printable [] = true
all_printable (c ∷ cs) = (if leb c b' ' || ltb b'~' c then false else true) && all_printable cs

abbrev is_blank : List ℕ → Bool
is_blank [] = true
is_blank (c ∷ cs) = false

unfoldable pub valid_request_id : List ℕ → Bool
valid_request_id s =
    if is_blank s || ltb max_request_id_len (length s) then false else all_printable s

-- encoding/hex.EncodeToString
abbrev pub hex_digit : ℕ → ℕ
hex_digit d = if ltb d 10 then b'0' + d else b'a' + (d - 10)

unfoldable pub hex : List ℕ → List ℕ
hex [] = []
hex (b ∷ bs) = hex_digit (b / 16 % 16) ∷ (hex_digit (b % 16) ∷ hex bs)

-- The eight random bytes are an argument.
pub record Bytes : Type 0 where
  pub b0 : ℕ
  pub b1 : ℕ
  pub b2 : ℕ
  pub b3 : ℕ
  pub b4 : ℕ
  pub b5 : ℕ
  pub b6 : ℕ
  pub b7 : ℕ

unfoldable pub new_request_id : Bytes → List ℕ
new_request_id b = hex (b.b0 ∷ b.b1 ∷ b.b2 ∷ b.b3 ∷ b.b4 ∷ b.b5 ∷ b.b6 ∷ b.b7 ∷ [])

-- strconv.Atoi is `decimal` on digits, of which nine always fit; `strings.Trim(header, "0123456789") != ""` says that some byte is not a digit.
unfoldable pub all_digits : List ℕ → Bool
all_digits [] = true
all_digits (c ∷ cs) = is_digit c && all_digits cs

abbrev pub millisecond : ℕ
millisecond = 1000000

abbrev pub max_ℤ : ℤ → ℤ → ℤ
max_ℤ a b = if ltb_ℤ a b then b else a

abbrev pub shorter : ℤ → ℤ → ℤ
shorter configured asked =
    if ltb_ℤ (pos 0) configured && ltb_ℤ configured asked then configured else asked

unfoldable pub request_budget : ℤ → ℤ → List ℕ → ℤ
request_budget configured floor header =
    if is_blank header || ltb 9 (length header) || not (all_digits header)
    then configured
    else (let ms = decimal 0 header in
        if ms == 0 then configured else shorter configured (max_ℤ (pos (ms * millisecond)) floor))

-- strings.Join(values, ",") and strings.Split(text, ",")
abbrev comma : ℕ
comma = b','

unfoldable pub join : List (List ℕ) → List ℕ
join [] = []
join (v ∷ []) = v
join (v ∷ (w ∷ vs)) = v ++ (comma ∷ join (w ∷ vs))

-- The pieces of a text, with what was read of the first one.
unfoldable pub split_from : List ℕ → List ℕ → List (List ℕ)
split_from piece [] = reverse piece ∷ []
split_from piece (c ∷ cs) =
    let same = split_from (c ∷ piece) cs in
    let next = split_from [] cs in if c == comma then reverse piece ∷ next else same

abbrev pub split : List ℕ → List (List ℕ)
split s = split_from [] s

-- netip: addresses, ParseAddr with Unmap after it, and the prefixes of the trusted proxies.
pub record Network : Type 1 where
  pub Addr : Type 0
  pub parse : List ℕ → Option Addr
  pub proxies : List (Addr → Bool)

module _ (net : Network) where
  open net use {Addr, parse, proxies}

  abbrev any_contains : List (Addr → Bool) → Addr → Bool
  any_contains [] a = false
  any_contains (p ∷ ps) a = p a || any_contains ps a

  -- The address of a peer that cannot be parsed is not valid.
  abbrev pub is_trusted : Option Addr → Bool
  is_trusted none = false
  is_trusted (some a) = any_contains proxies a

  -- The loop of `clientIP`, over the hops from the right.
  unfoldable pub walk_hops : Option Addr → List (List ℕ) → Option Addr
  walk_hops peer [] = peer
  walk_hops peer (hop ∷ hops) = elim (parse (trim_space hop)) [
    | none ↦ peer
    | some a ↦ if is_trusted (some a) then walk_hops peer hops else some a
  ]

  unfoldable pub client_ip : List (List ℕ) → Option Addr → Bool → Option Addr
  client_ip forwarded peer trusted =
      if trusted then walk_hops peer (reverse (split (join forwarded))) else peer

  -- The headers that `entry` reads, and the peer's address.
  pub record Incoming : Type 0 where
    pub peer : Option Addr
    pub request_id : List ℕ
    pub request_timeout : List ℕ
    pub forwarded_for : List (List ℕ)

  pub record ReqInfo : Type 0 where
    pub id : List ℕ
    pub client_ip : Option Addr
    pub budget : ℤ

  abbrev pub request_id_of : Incoming → Bytes → List ℕ
  request_id_of r random =
      if is_trusted r.peer && valid_request_id r.request_id
      then r.request_id
      else new_request_id random

  -- `entry`, with HTTP_REQUEST_TIMEOUT and HTTP_REQUEST_TIMEOUT_MIN. No deadline is set for a budget
  -- that is not positive.
  unfoldable pub entry : ℤ → ℤ → Incoming → Bytes → ReqInfo
  entry timeout floor r random = record {
    id = request_id_of r random;
    client_ip = client_ip r.forwarded_for r.peer (is_trusted r.peer);
    budget = request_budget timeout floor r.request_timeout;
  }
