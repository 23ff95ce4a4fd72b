-- ===== src/Tasks/Domain.antt =====
-- services/tasks/internal/domain: tasks, patches, titles and pages. A Go string that the code walks
-- is the list of its runes; a byte that decodes to none stands as a number above the last rune.
pub mod Titles
use golang_basics.Base.Int.{ℤ}
use golang_basics.Base.{
  Result, ok, err, ℕ, ◌*◌, Bool, true, false, not, ◌&&◌, ◌||◌, Option, none, some, List, [], ◌∷◌,
  String, length, ltb, leb, ◌==◌, trim_space, if◌then◌else◌,
}

abbrev pub max_title_runes : ℕ
max_title_runes = 200

-- `title` holds the runes, `created_at` the microseconds of the database's clock.
pub record Task : Type 0 where
  pub id : String
  pub title : List ℕ
  pub done : Bool
  pub version : ℕ
  pub created_at : ℕ

pub record IdempotencyKey : Type 0 where
  pub key : String
  pub hash : String

pub record Patch : Type 0 where
  pub title : Option (List ℕ)
  pub done : Option Bool

-- The errors of the rules; a bad title comes with the rule it breaks.
pub data DomainError : Type 0 where
  blank not_utf8 too_long has_nul has_control empty_patch : DomainError

abbrev pub max_rune : ℕ
max_rune = 0x10ffff

unfoldable pub is_valid_utf8 : List ℕ → Bool
is_valid_utf8 [] = true
is_valid_utf8 (c ∷ cs) = leb c max_rune && is_valid_utf8 cs

abbrev pub is_control : ℕ → Bool
is_control c = (ltb c 0x20 && not (c == 9)) || (c == 0x7f)

-- The loop over the runes: the first bad one is reported.
unfoldable pub bad_rune : List ℕ → Option DomainError
bad_rune [] = none
bad_rune (c ∷ cs) =
    let rest = bad_rune cs in
    if c == 0 then some has_nul else if is_control c then some has_control else rest

abbrev or_error : List ℕ → Option DomainError → Result DomainError (List ℕ)
or_error t none = ok t
or_error t (some e) = err e

abbrev pub is_nil : List ℕ → Bool
is_nil [] = true
is_nil (c ∷ cs) = false

-- The switch and the loop, on the trimmed title.
unfoldable pub check_title : List ℕ → Result DomainError (List ℕ)
check_title t =
    if is_nil t
    then err blank
    else if not (is_valid_utf8 t)
    then err not_utf8
    else if ltb max_title_runes (length t)
    then err too_long
    else or_error t (bad_rune t)

unfoldable pub normalize_title : List ℕ → Result DomainError (List ℕ)
unfolding check_title
normalize_title title = check_title (trim_space title)

abbrev with_title : Patch → Result DomainError (List ℕ) → Result DomainError Patch
with_title p (ok t) = ok (record p { title = some t })
with_title p (err e) = err e

unfoldable pub normalize_fields : Patch → Option (List ℕ) → Option Bool → Result DomainError Patch
unfolding normalize_title
normalize_fields p none none = err empty_patch
normalize_fields p none (some d) = ok p
normalize_fields p (some t) d = with_title p (normalize_title t)

unfoldable pub normalize : Patch → Result DomainError Patch
unfolding normalize_fields
normalize p = normalize_fields p p.title p.done

abbrev pub or_old : {A : Type 0} → Option A → A → A
or_old none old = old
or_old (some new) old = new

unfoldable pub apply : Patch → Task → Task
apply p t = record t { title = or_old p.title t.title; done = or_old p.done t.done }

abbrev pub default_page_size : ℕ
default_page_size = 50

abbrev pub max_page_size : ℕ
max_page_size = 200

-- A position in the order of the pages.
pub record Cursor : Type 0 where
  pub created_at : ℕ
  pub id : String

unfoldable pub cursor_after : Task → Cursor
cursor_after t = record { created_at = t.created_at; id = t.id }

pub record PageRequest : Type 0 where
  pub limit : ℤ
  pub cursor : Option Cursor

pub record Page : Type 0 where
  pub tasks : List Task
  pub next : Option Cursor
