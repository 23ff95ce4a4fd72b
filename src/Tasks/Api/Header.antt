-- ===== src/Tasks/Api/Header.antt =====
-- services/tasks/internal/api/api.go: the entity tag, and the headers If-Match and Idempotency-Key.
-- A header's value is the list of its runes.
use golang_basics.Base.{
  Result, ok, err, ℕ, zero, suc, ◌+◌, ◌^◌, Bool, true, false, not, ◌&&◌, ◌||◌, Option, none, some,
  List, [], ◌∷◌, ◌++◌, String, ltb, leb, ◌==◌, trim_space, if◌then◌else◌,
}
use golang_basics.Base.Int.{ℤ, pos, negsuc}
use golang_basics.Base.Decimal.{digits, format_int}
use golang_basics.Resilient.Backoff.{value, err_range, err_syntax, Parsed, parse_uint}
use golang_basics.Tasks.Domain.{IdempotencyKey}

-- The bytes of a text: a rune above the last one is one byte that decodes to none.
unfoldable pub byte_len : List ℕ → ℕ
byte_len [] = 0
byte_len (c ∷ cs) =
    let rest = byte_len cs in
    if ltb c 0x80
    then rest + 1
    else if ltb c 0x800
    then rest + 2
    else if ltb c 0x10000
    then rest + 3
    else if leb c 0x10ffff
    then rest + 4
    else rest + 1

abbrev pub quote : ℕ
quote = b'"'

-- `ETag`.
unfoldable pub etag : ℕ → List ℕ
unfolding digits
etag version = quote ∷ (format_int version ++ (quote ∷ []))

abbrev as_positive : Parsed → Option ℤ
as_positive (value n) = if ltb n (2 ^ 63) then some (pos n) else none
as_positive err_range = none
as_positive err_syntax = none

abbrev as_negative : Parsed → Option ℤ
as_negative (value zero) = some (pos 0)
as_negative (value (suc n)) = if leb (suc n) (2 ^ 63) then some (negsuc n) else none
as_negative err_range = none
as_negative err_syntax = none

-- strconv.ParseUint refuses a text without digits.
abbrev parse_digits : List ℕ → Parsed
parse_digits [] = err_syntax
parse_digits (c ∷ cs) = parse_uint 0 (c ∷ cs)

-- strconv.ParseInt(s, 10, 64), and strconv.Atoi.
unfoldable pub parse_int : List ℕ → Option ℤ
unfolding parse_uint
parse_int [] = none
parse_int (c ∷ cs) =
    if c == b'+'
    then as_positive (parse_digits cs)
    else if c == b'-'
    then as_negative (parse_digits cs)
    else as_positive (parse_digits (c ∷ cs))

pub data HeaderError : Type 0 where
  no_tag no_version empty_key long_key unprintable_key : HeaderError

abbrev pub max_if_match_length : ℕ
max_if_match_length = 20

abbrev starts_quoted : List ℕ → Bool
starts_quoted [] = false
starts_quoted (c ∷ cs) = c == quote

unfoldable pub ends_quoted : List ℕ → Bool
ends_quoted [] = false
ends_quoted (c ∷ []) = c == quote
ends_quoted (c ∷ d ∷ cs) = ends_quoted (d ∷ cs)

unfoldable pub but_last : List ℕ → List ℕ
but_last [] = []
but_last (c ∷ []) = []
but_last (c ∷ d ∷ cs) = c ∷ but_last (d ∷ cs)

-- `raw[1:len(raw)-1]`
abbrev inner : List ℕ → List ℕ
inner [] = []
inner (c ∷ cs) = but_last cs

abbrev pub positive : Option ℤ → Result HeaderError (Option ℕ)
positive none = err no_version
positive (some (pos zero)) = err no_version
positive (some (pos (suc n))) = ok (some (suc n))
positive (some (negsuc n)) = err no_version

abbrev is_star : List ℕ → Bool
is_star [] = false
is_star (c ∷ []) = c == b'*'
is_star (c ∷ d ∷ cs) = false

unfoldable pub parse_tag : List ℕ → Result HeaderError (Option ℕ)
unfolding byte_len ends_quoted but_last parse_int
parse_tag raw =
    if is_star raw
    then ok none
    else if ltb (byte_len raw) 3
        || ltb max_if_match_length (byte_len raw)
        || not (starts_quoted raw)
        || not (ends_quoted raw)
    then err no_tag
    else positive (parse_int (inner raw))

-- The header's value when it was sent.
unfoldable pub if_match : Option (List ℕ) → Result HeaderError (Option ℕ)
unfolding parse_tag
if_match none = ok none
if_match (some v) = parse_tag (trim_space v)

abbrev pub max_idempotency_key_length : ℕ
max_idempotency_key_length = 255

unfoldable pub is_printable : List ℕ → Bool
is_printable [] = true
is_printable (c ∷ cs) = leb 0x20 c && leb c 0x7e && is_printable cs

-- The hash of the title, and the key's runes as the text they are, are arguments.
unfoldable pub idempotency_key :
    (List ℕ → String)
    → (List ℕ → String)
    → Option (List ℕ)
    → List ℕ
    → Result HeaderError (Option IdempotencyKey)
unfolding byte_len is_printable
idempotency_key text sha256 none title = ok none
idempotency_key text sha256 (some []) title = err empty_key
idempotency_key text sha256 (some (c ∷ cs)) title =
    if ltb max_idempotency_key_length (byte_len (c ∷ cs))
    then err long_key
    else if not (is_printable (c ∷ cs))
    then err unprintable_key
    else ok (some (record { key = text (c ∷ cs); hash = sha256 title }))
