-- ===== src/Tasks/Api/Wire.antt =====
-- services/tasks/internal/api/api.go: requests and answers, and what the handlers read of them.
use golang_basics.Base.{
  Result, ok, err, ℕ, Bool, not, ◌&&◌, ◌||◌, Option, none, some, List, [], ◌∷◌, String, str_eq,
  length, ltb, if◌then◌else◌,
}
use golang_basics.Base.Int.{ℤ, pos, ltb_ℤ}
use golang_basics.Tasks.Domain.{Task, Cursor, Patch, default_page_size, max_page_size}
use golang_basics.Tasks.Store.Tables.{Db}
use golang_basics.Tasks.Store.{
  StoreError, not_found, version_mismatch, key_reused, driver, replay_of,
}
use golang_basics.Tasks.Api.Header.{parse_int}

-- The cache as the handlers use it: a read with what the store would load and whether that was a
-- hit, a fill, and an invalidation that may fail.
pub record Cache (C : Type 0) : Type 0 where
  pub get : String → Result StoreError Task → C → Result StoreError (Task × Bool) × C
  pub warm : Task → C → C
  pub invalidate : String → C → Bool × C

-- The tables, the cache, and how often `Committed` was called.
pub record World (C : Type 0) : Type 0 where
  pub db : Db
  pub cache : C
  pub committed : ℕ

pub data Code : Type 0 where
  invalid_body invalid_title invalid_idempotency_key idempotency_key_reused : Code
  task_not_found version_mismatch_code invalid_if_match invalid_patch empty_patch_code : Code
  unknown_parameter repeated_parameter invalid_limit invalid_cursor : Code
  timeout internal : Code

-- What is answered beside the status: `task` with its entity tag and headers.
pub data Answer : Type 0 where
  problem : Code → Answer
  task : List ℕ → Task → Answer
  replayed : List ℕ → Task → Answer
  located : List ℕ → Task → Answer
  read : Bool → List ℕ → Task → Answer
  page : List Task → Option Cursor → Answer
  no_content : Answer

pub record Response : Type 0 where
  pub status : ℕ
  pub answer : Answer

abbrev pub refuse : ℕ → Code → Response
refuse s c = record { status = s; answer = problem c }

-- httpx.DecodeJSON: the value, or the status of its problem.
pub data Body (A : Type 0) : Type 0 where
  decoded : A → Body A
  undecodable : ℕ → Body A

-- A field of a PATCH body before it is decoded.
pub data Raw : Type 0 where
  null other : Raw
  text : List ℕ → Raw
  flag : Bool → Raw

pub data PatchError : Type 0 where
  unknown_field null_field bad_field : PatchError

abbrev set_title : Raw → Patch → Result PatchError Patch
set_title null p = err null_field
set_title other p = err bad_field
set_title (flag b) p = err bad_field
set_title (text t) p = ok (record p { title = some t })

abbrev set_done : Raw → Patch → Result PatchError Patch
set_done null p = err null_field
set_done other p = err bad_field
set_done (flag b) p = ok (record p { done = some b })
set_done (text t) p = err bad_field

abbrev set_field : String → Raw → Patch → Result PatchError Patch
set_field name v p =
    if str_eq name "title"
    then set_title v p
    else if str_eq name "done"
    then set_done v p
    else err unknown_field

abbrev and_then : {E A B : Type 0} → Result E A → (A → Result E B) → Result E B
and_then (ok a) f = f a
and_then (err e) f = err e

-- The loop over the map, in the order that it meets the fields.
unfoldable pub decode_patch : List (String × Raw) → Patch → Result PatchError Patch
decode_patch [] p = ok p
decode_patch ((name, v) ∷ fields) p = and_then (set_field name v p) (decode_patch fields)

-- A parameter of the query: an unknown name or a repeated one is refused.
unfoldable pub check_query : List (String × List (List ℕ)) → Option Code
check_query [] = none
check_query ((name, values) ∷ q) =
    let rest = check_query q in
    if not (str_eq name "limit") && not (str_eq name "cursor")
    then some unknown_parameter
    else if ltb 1 (length values)
    then some repeated_parameter
    else rest

-- `q.Get(name)`, and whether the query has the name.
abbrev first : List (List ℕ) → List ℕ
first [] = []
first (v ∷ vs) = v

unfoldable pub sent : String → List (String × List (List ℕ)) → Option (List ℕ)
sent name [] = none
sent name ((n, values) ∷ q) =
    let rest = sent name q in if str_eq n name then some (first values) else rest

abbrev in_range : Option ℤ → Option ℤ
in_range none = none
in_range (some n) = if ltb_ℤ n (pos 1) || ltb_ℤ (pos max_page_size) n then none else some n

-- The limit: the default when none is sent.
unfoldable pub query_limit : Option (List ℕ) → Option ℤ
unfolding parse_int
query_limit none = some (pos default_page_size)
query_limit (some v) = in_range (parse_int v)

-- The service's parts that are not its own: the runes of a key as a text, the digest of a title, the
-- decoder of cursors, the collation of the ids; and whether an error of the driver wraps the end of
-- the request's deadline.
pub record Outside : Type 0 where
  pub text : List ℕ → String
  pub sha256 : List ℕ → String
  pub decode_cursor : List ℕ → Option Cursor
  pub id_lt : String → String → Bool
  pub timed_out : Bool

-- `fail`
abbrev pub failed : Outside → Response
failed o = if o.timed_out then refuse 504 timeout else refuse 500 internal

-- `writeChangeError`, for an error.
abbrev pub change_error : Outside → StoreError → Response
change_error o not_found = refuse 404 task_not_found
change_error o version_mismatch = refuse 412 version_mismatch_code
change_error o key_reused = failed o
change_error o driver = failed o
change_error o (replay_of id) = failed o
