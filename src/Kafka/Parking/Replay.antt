-- ===== src/Kafka/Parking/Replay.antt =====
-- libs/kafka/consumer.go: the headers of a record that is parked, replayed and parked again.
use golang_basics.Base.{
  ℕ, ◌≡◌, refl, ap, ap₂, ◌∙◌, inl, inr, true, false, none, List, [], ◌∷◌, ◌++◌, String, str_eq,
  Bool-cases, if◌then◌else◌, eq_iff, arith,
}
use mathlib.Core.List.{append-nil}
use golang_basics.Kafka.Parking.{
  Header, Message, header_value, is_dlq, keep_headers, Failure, dlq_headers, parked,
}

keep_headers-append :
    (hs gs : List Header) → keep_headers (hs ++ gs) ≡ keep_headers hs ++ keep_headers gs
unfolding keep_headers
keep_headers-append [] gs = refl
keep_headers-append (h ∷ hs) gs = ground (arith, keep_headers-append hs gs)

keep_headers_idem : (hs : List Header) → keep_headers (keep_headers hs) ≡ keep_headers hs
unfolding keep_headers
keep_headers_idem [] = refl
keep_headers_idem (h ∷ hs) = ground (arith, keep_headers_idem hs)

header_value-keep :
    (hs : List Header) (k : String)
    → is_dlq k ≡ false
    → header_value (keep_headers hs) k ≡ header_value hs k
unfolding keep_headers header_value
header_value-keep [] k n = refl
header_value-keep (h ∷ hs) k n = ground (arith, header_value-keep hs k n, eq_iff h.key k)

header_value-kept :
    (hs gs : List Header) (k : String)
    → is_dlq k ≡ true
    → header_value (keep_headers hs ++ gs) k ≡ header_value gs k
unfolding keep_headers header_value
header_value-kept [] gs k n = refl
header_value-kept (h ∷ hs) gs k n = ground (arith, header_value-kept hs gs k n, eq_iff h.key k)

header_value-append :
    (hs gs : List Header) (k : String)
    → header_value gs k ≡ none
    → header_value (hs ++ gs) k ≡ header_value hs k
unfolding header_value
header_value-append [] gs k n = n
header_value-append (h ∷ hs) gs k n = ground (arith, header_value-append hs gs k n)

str_eq_comm : (s t : String) → str_eq s t ≡ str_eq t s
str_eq_comm s t = ground (arith, eq_iff s t, eq_iff t s)

module _ (utf8 : String → List ℕ) (itoa : ℕ → List ℕ) where
  dlq_headers-dlq : (r : Message) (f : Failure) → keep_headers (dlq_headers utf8 itoa r f) ≡ []
  unfolding keep_headers is_dlq
  dlq_headers-dlq r f = refl

  dlq_headers-other :
      (r : Message) (f : Failure) (k : String)
      → is_dlq k ≡ false
      → header_value (dlq_headers utf8 itoa r f) k ≡ none
  unfolding header_value is_dlq
  dlq_headers-other r f k h = ground (
    arith,
    str_eq_comm "dlq_reason" k,
    str_eq_comm "dlq_error" k,
    str_eq_comm "dlq_source_topic" k,
    str_eq_comm "dlq_source_partition" k,
    str_eq_comm "dlq_source_offset" k,
    str_eq_comm "dlq_attempts" k,
  )

  -- Parking a record keeps what its other headers say, and each of the six headers of parking says
  -- what this parking wrote, whatever the record carried under that key.
  parked-header_value :
      (topic : String) (r : Message) (f : Failure) (k : String)
      → header_value (parked utf8 itoa topic r f).headers k ≡ (
          if is_dlq k then header_value (dlq_headers utf8 itoa r f) k else header_value r.headers k)
  unfolding parked
  parked-header_value topic r f k = elim (Bool-cases (is_dlq k)) [
    | inl e ↦ simp e (header_value-kept r.headers (dlq_headers utf8 itoa r f) k e)
    | inr e ↦ simp e (
        header_value-append (keep_headers r.headers) (dlq_headers utf8 itoa r f) k
          (dlq_headers-other r f k e)
        ∙ header_value-keep r.headers k e)
  ]

  -- A record that was parked and is replayed with the headers it was parked with is parked again
  -- with the same headers as if it had never been parked: the headers of parking do not pile up.
  pub parked-replayed :
      (topic dlq : String) (r s : Message) (f g : Failure)
      → (parked utf8 itoa topic
          (record s { headers = (parked utf8 itoa dlq r f).headers })
          g).headers
        ≡ (parked utf8 itoa topic (record s { headers = r.headers }) g).headers
  unfolding parked
  parked-replayed topic dlq r s f g =
      ap (λ hs. hs ++ dlq_headers utf8 itoa s g)
        (keep_headers-append (keep_headers r.headers) (dlq_headers utf8 itoa r f)
          ∙ ap₂ (λ a b. a ++ b) (keep_headers_idem r.headers) (dlq_headers-dlq r f)
          ∙ append-nil (keep_headers r.headers))
