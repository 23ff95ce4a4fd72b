-- ===== src/Tasks/Api/Etag.antt =====
-- services/tasks/internal/api/api.go: an ETag that a client sends back is read as its version.
use mathlib.Core.List.{reverse-append, reverse-cons, reverse-reverse}
use golang_basics.Base.{
  ok, ℕ, zero, suc, ◌+◌, ◌^◌, ◌≤◌, ◌<◌, ◌≡◌, refl, ap, ◌∙◌, true, some, List, [], ◌∷◌, ◌++◌, length,
  trim_space, trim_left, is_space, All, arith, reverse,
}
use golang_basics.Base.Int.{pos}
use golang_basics.Base.Decimal.{
  decimal, format_int, IsDigit, digits-IsDigit, decimal-digits, length-digits, length-digits_pos,
}
use golang_basics.Resilient.Backoff.Header.{parse_uint-decimal}
use golang_basics.Tasks.Domain.Titles.{trim_space_no_space}
use golang_basics.Tasks.Api.Header.{
  byte_len, quote, etag, parse_int, ends_quoted, but_last, parse_tag, positive, if_match,
}

-- The text of an entity tag: a quote, at least one digit, digits, a quote.
byte_len-digits : (cs : List ℕ) → All IsDigit cs → byte_len (cs ++ (quote ∷ [])) ≡ length cs + 1
unfolding byte_len
byte_len-digits [] u = refl
byte_len-digits (c ∷ cs) (d, ds) = ground (arith, byte_len-digits cs ds)

ends_quoted-append : (cs : List ℕ) → ends_quoted (cs ++ (quote ∷ [])) ≡ true
unfolding ends_quoted
ends_quoted-append [] = refl
ends_quoted-append (c ∷ []) = refl
ends_quoted-append (c ∷ d ∷ cs) = ends_quoted-append (d ∷ cs)

but_last-append : (cs : List ℕ) (c : ℕ) → but_last (cs ++ (c ∷ [])) ≡ cs
unfolding but_last
but_last-append [] c = refl
but_last-append (d ∷ []) c = refl
but_last-append (d ∷ x ∷ cs) c = ap (λ l. d ∷ l) (but_last-append (x ∷ cs) c)

parse_int-digits :
    (cs : List ℕ)
    → All IsDigit cs
    → 1 ≤ length cs
    → decimal 0 cs < 2 ^ 63
    → parse_int cs ≡ some (pos (decimal 0 cs))
unfolding parse_int
parse_int-digits [] u h l = ground arith
parse_int-digits (c ∷ cs) (d, ds) h l =
    ground (arith, parse_uint-decimal 0 (c ∷ cs) (omega arith) (d, ds))

trim_left-quote : (cs : List ℕ) → trim_left (quote ∷ cs) ≡ quote ∷ cs
unfolding trim_left
trim_left-quote cs = refl

trim_space-quoted :
    (cs : List ℕ) → trim_space (quote ∷ (cs ++ (quote ∷ []))) ≡ quote ∷ (cs ++ (quote ∷ []))
unfolding is_space
trim_space-quoted cs =
    trim_space_no_space quote (cs ++ (quote ∷ [])) refl
    ∙ ap (λ l. quote ∷ reverse (trim_left l)) (reverse-append cs (quote ∷ []))
    ∙ ap (λ l. quote ∷ reverse l) (trim_left-quote (reverse cs))
    ∙ ap (λ l. quote ∷ l)
        (reverse-cons quote (reverse cs) ∙ ap (λ l. l ++ (quote ∷ [])) (reverse-reverse cs))

byte_len-quote : (cs : List ℕ) → byte_len (quote ∷ cs) ≡ byte_len cs + 1
unfolding byte_len
byte_len-quote cs = refl

ends_quoted-quote : (d : ℕ) (cs : List ℕ) → ends_quoted (quote ∷ d ∷ cs) ≡ ends_quoted (d ∷ cs)
unfolding ends_quoted
ends_quoted-quote d cs = refl

parse_tag-in_bounds :
    (d : ℕ) (cs : List ℕ)
    → 2 ≤ byte_len (d ∷ cs)
    → byte_len (d ∷ cs) ≤ 19
    → ends_quoted (d ∷ cs) ≡ true
    → parse_tag (quote ∷ d ∷ cs) ≡ positive (parse_int (but_last (d ∷ cs)))
unfolding parse_tag
parse_tag-in_bounds d cs lo hi e = ground (arith, byte_len-quote (d ∷ cs), ends_quoted-quote d cs)

parse_tag-quoted :
    (cs : List ℕ)
    → All IsDigit cs
    → 1 ≤ length cs
    → length cs ≤ 18
    → parse_tag (quote ∷ (cs ++ (quote ∷ []))) ≡ positive (parse_int cs)
unfolding byte_len
parse_tag-quoted [] u h l = ground arith
parse_tag-quoted (c ∷ cs) u h l =
    let n = byte_len-digits (c ∷ cs) u in
    parse_tag-in_bounds c (cs ++ (quote ∷ [])) (omega (arith, n)) (omega (arith, n, l))
      (ends_quoted-append (c ∷ cs))
    ∙ ap (λ l. positive (parse_int l)) (but_last-append (c ∷ cs) quote)

-- Of the versions below 10^18, the largest that an entity tag of the longest length carries, the tag
-- that the API sends is read from If-Match as the version.
pub if_match-etag : (v : ℕ) → 1 ≤ v → v < 10 ^ 18 → if_match (some (etag v)) ≡ ok (some v)
unfolding if_match etag
if_match-etag zero h g = ground arith
if_match-etag (suc v) h g =
    let ds = format_int (suc v) in
    let n = decimal-digits (suc (suc v)) (suc v) (omega arith) in
    let i = digits-IsDigit (suc (suc v)) (suc v) in
    let m = length-digits 17 (suc (suc v)) (suc v) g in
    ap parse_tag (trim_space-quoted ds)
    ∙ parse_tag-quoted ds i (length-digits_pos (suc v) (suc v)) m
    ∙ ap positive (parse_int-digits ds i (length-digits_pos (suc v) (suc v)) (omega (arith, n, g)))
    ∙ ap (λ k. positive (some (pos k))) n
