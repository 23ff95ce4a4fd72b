-- ===== src/Kafka/Parking.antt =====
-- libs/kafka/message.go and consumer.go: headers, and the copy of a record on the dead-letter topic.
pub mod Replay
use golang_basics.Base.{
  ℕ, zero, suc, ◌+◌, ◌/◌, ◌%◌, Bool, ◌||◌, Option, none, some, List, [], ◌∷◌, ◌++◌, String, str_eq,
  is_empty, length, take, runes, ltb, ◌==◌, if◌then◌else◌,
}

-- A value is a list of bytes.
pub record Header : Type 0 where
  pub key : String
  pub value : List ℕ

-- The fields that parking reads or writes.
pub record Message : Type 0 where
  pub topic : String
  pub key : List ℕ
  pub value : List ℕ
  pub partition : ℕ
  pub offset : ℕ
  pub headers : List Header

unfoldable pub header_value : List Header → String → Option (List ℕ)
header_value [] key = none
header_value (h ∷ hs) key = if str_eq h.key key then some h.value else header_value hs key

abbrev pub header_dlq_reason : String
header_dlq_reason = "dlq_reason"

abbrev pub header_dlq_error : String
header_dlq_error = "dlq_error"

abbrev pub header_dlq_source_topic : String
header_dlq_source_topic = "dlq_source_topic"

abbrev pub header_dlq_source_partition : String
header_dlq_source_partition = "dlq_source_partition"

abbrev pub header_dlq_source_offset : String
header_dlq_source_offset = "dlq_source_offset"

abbrev pub header_dlq_attempts : String
header_dlq_attempts = "dlq_attempts"

abbrev pub max_dlq_error_bytes : ℕ
max_dlq_error_bytes = 1024

-- The cases of `deadLetter`'s switch.
unfoldable pub is_dlq : String → Bool
is_dlq key =
    str_eq key header_dlq_reason
    || str_eq key header_dlq_error
    || str_eq key header_dlq_source_topic
    || str_eq key header_dlq_source_partition
    || str_eq key header_dlq_source_offset
    || str_eq key header_dlq_attempts

unfoldable pub keep_headers : List Header → List Header
keep_headers [] = []
keep_headers (h ∷ hs) = let rest = keep_headers hs in if is_dlq h.key then rest else h ∷ rest

-- What the parked copy says of the failure; `utf8` and `itoa` are the conversions of a string and of
-- an integer to bytes.
pub record Failure : Type 0 where
  pub reason : String
  pub cause : List ℕ
  pub attempts : ℕ

unfoldable pub error_text : List ℕ → List ℕ
error_text t = if ltb max_dlq_error_bytes (length t) then take max_dlq_error_bytes t else t

abbrev pub header_of : String → List ℕ → Header
header_of key value = record { key = key; value = value }

abbrev pub dlq_headers : (String → List ℕ) → (ℕ → List ℕ) → Message → Failure → List Header
dlq_headers utf8 itoa r f =
    header_of header_dlq_reason (utf8 f.reason)
    ∷ header_of header_dlq_error (error_text f.cause)
    ∷ header_of header_dlq_source_topic (utf8 r.topic)
    ∷ header_of header_dlq_source_partition (itoa r.partition)
    ∷ header_of header_dlq_source_offset (itoa r.offset)
    ∷ header_of header_dlq_attempts (itoa f.attempts)
    ∷ []

unfoldable pub parked : (String → List ℕ) → (ℕ → List ℕ) → String → Message → Failure → Message
parked utf8 itoa topic r f = record {
  topic = topic;
  key = r.key;
  value = r.value;
  partition = 0;
  offset = 0;
  headers = keep_headers r.headers ++ dlq_headers utf8 itoa r f;
}
