-- ===== src/Valkey/Server.antt =====
-- libs/valkey/valkey.go: the commands of the cache. The server is a parameter, with the laws that
-- its documentation gives GET and SET; its clock counts milliseconds, the code nanoseconds.
use golang_basics.Base.{
  ℕ, ◌+◌, ◌/◌, ◌≤◌, ◌<◌, ◌≡◌, ◌≢◌, Bool, true, false, Option, none, some, List, [], ◌∷◌, String,
  str_eq, if◌then◌else◌,
}
use golang_basics.Base.Int.{ℤ, pos, pos_part, leb_ℤ}

-- GET, SET without and with an expiry, SET NX PX, and DEL, each at a time.
pub record Server (S : Type 0) : Type 0 where
  pub get : String → ℕ → S → Option String
  pub set : String → String → ℕ → S → S
  pub set_px : String → String → ℕ → ℕ → S → S
  pub set_nx_px : String → String → ℕ → ℕ → S → Bool × S
  pub del : String → ℕ → S → S

-- What is relied on: a key that is set holds its value until it expires, a SET of another key leaves
-- it, and NX writes exactly when the key is free.
pub record IsServer {S : Type 0} (server : Server S) : Type 0 where
  pub get_set_px :
      (key value : String) (ttl now at : ℕ) (s : S)
      → now ≤ at
      → at < now + ttl
      → server.get key at (server.set_px key value ttl now s) ≡ some value
  pub get_other :
      (key other value : String) (ttl now at : ℕ) (s : S)
      → other ≢ key
      → now ≤ at
      → server.get key at (server.set_px other value ttl now s) ≡ server.get key at s
  pub nx_taken :
      (key old value : String) (ttl now : ℕ) (s : S)
      → server.get key now s ≡ some old
      → server.set_nx_px key value ttl now s ≡ (false, s)
  pub nx_free :
      (key value : String) (ttl now : ℕ) (s : S)
      → server.get key now s ≡ none
      → server.set_nx_px key value ttl now s ≡ (true, server.set_px key value ttl now s)

-- How a command ends: executed and answered, never executed, or executed without an answer in time.
pub data Fate : Type 0 where
  answered unsent unanswered : Fate

pub data Lookup : Type 0 where
  hit : String → Lookup
  miss failed_lookup : Lookup

-- SetNX: whether it wrote, or an error.
pub data Written : Type 0 where
  wrote : Bool → Written
  not_positive no_answer : Written

-- The text is no JSON, so that no cached value is equal to it.
abbrev pub tombstone_value : String
tombstone_value = "\0valkey:tombstone"

abbrev pub sent : {S : Type 0} → Fate → S → S → S
sent answered before after = after
sent unsent before after = before
sent unanswered before after = after

abbrev is_answered : Fate → Bool
is_answered answered = true
is_answered unsent = false
is_answered unanswered = false

abbrev pub of_value : Option String → Lookup
of_value none = miss
of_value (some v) = if str_eq v tombstone_value then miss else hit v

abbrev pub of_nx : {S : Type 0} → Fate → S → Bool × S → Written × S
of_nx answered before (b, after) = (wrote b, after)
of_nx unsent before (b, after) = (no_answer, before)
of_nx unanswered before (b, after) = (no_answer, after)

-- The argument of PX: a duration in whole milliseconds.
abbrev pub px : ℕ → ℕ
px ttl = ttl / 1000000

module _ {S : Type 0} (server : Server S) where
  -- A lookup leaves the server as it is.
  unfoldable pub get : String → Fate → ℕ → S → Lookup
  get key answered now s = of_value (server.get key now s)
  get key unsent now s = failed_lookup
  get key unanswered now s = failed_lookup

  -- Whether it ended without an error.
  unfoldable pub set : String → String → ℤ → Fate → ℕ → S → Bool × S
  set key value ttl fate now s = (
    is_answered fate,
    sent fate s (
        if leb_ℤ ttl (pos 0)
        then server.set key value now s
        else server.set_px key value (px (pos_part ttl)) now s),
  )

  unfoldable pub set_nx : String → String → ℤ → Fate → ℕ → S → Written × S
  set_nx key value ttl fate now s =
      if leb_ℤ ttl (pos 0)
      then (not_positive, s)
      else of_nx fate s (server.set_nx_px key value (px (pos_part ttl)) now s)

  abbrev del_all : List String → ℕ → S → S
  del_all [] now s = s
  del_all (key ∷ keys) now s = del_all keys now (server.del key now s)

  unfoldable pub del : List String → Fate → ℕ → S → Bool × S
  del [] fate now s = (true, s)
  del (key ∷ keys) fate now s = (is_answered fate, sent fate s (del_all (key ∷ keys) now s))

  unfoldable pub tombstone : String → ℤ → Fate → ℕ → S → Bool × S
  unfolding set
  tombstone key ttl fate now s =
      if leb_ℤ ttl (pos 0) then (false, s) else set key tombstone_value ttl fate now s
