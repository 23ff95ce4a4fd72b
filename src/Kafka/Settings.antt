-- ===== src/Kafka/Settings.antt =====
-- libs/kafka/config.go: the configuration and its defaults. Texts are trimmed and
-- folded, and files read, by arguments.
pub mod Checks
pub mod Accepts
use golang_basics.Base.{
  ℕ, zero, suc, ◌*◌, ltb, ◌+◌, ◌-◌, ◌%◌, ◌^◌, Bool, true, false, not, ◌&&◌, ◌||◌, Option, none,
  some, List, [], ◌∷◌, ◌++◌, String, str_eq, is_empty, if◌then◌else◌,
}
use golang_basics.Base.Int.{ℤ, pos, negsuc, ltb_ℤ}
use golang_basics.Resilient.Config.{second}

pub record Settings : Type 0 where
  pub brokers : List String
  pub topic : String
  pub topics : List String
  pub group : String
  pub client_id : String
  pub dial_timeout : ℤ
  pub allow_auto_topic_creation : Bool
  pub publish_timeout : ℤ
  pub statistics_interval : ℤ
  pub security_protocol : String
  pub sasl_mechanism : String
  pub sasl_username : String
  pub sasl_password : String
  pub sasl_password_file : String
  pub ssl_ca_location : String
  pub ssl_certificate_location : String
  pub ssl_key_location : String
  pub ssl_endpoint_identification_algorithm : String
  pub producer_queue_max_kbytes : ℤ
  pub producer_queue_max_messages : ℤ
  pub message_max_bytes : ℤ
  pub consumer_queue_max_kbytes : ℤ
  pub consumer_fetch_max_bytes : ℤ
  pub consumer_partition_fetch_max_bytes : ℤ
  pub compression_type : String
  pub linger_ms : ℤ
  pub assignment_strategy : String
  pub session_timeout_ms : ℤ
  pub max_poll_interval_ms : ℤ
  pub auto_offset_reset : String
  pub max_poll_records : ℤ
  pub handler_timeout : ℤ
  pub max_retries : ℤ
  pub retry_backoff : ℤ
  pub retry_backoff_max : ℤ
  pub dead_letter_topic : String
  pub drain_timeout : ℤ
  pub extra_properties : List (String × String)
  pub producer_extra_properties : List (String × String)
  pub consumer_extra_properties : List (String × String)

-- What a path names.
pub data File : Type 0 where
  missing directory : File
  file : Bool → File

-- strings.TrimSpace, with ToLower and ToUpper after it; the files, where `file true` has nothing but
-- ends of lines; and the problems that the linked provider finds.
pub record Host : Type 0 where
  pub trim : String → String
  pub lower : String → String
  pub upper : String → String
  pub open_file : String → File
  pub driver_problems : Settings → List String

abbrev pub or_text : String → String → String
or_text s d = if is_empty s then d else s

-- Zero is unset.
abbrev pub or_int : ℤ → ℕ → ℤ
or_int (pos zero) d = pos d
or_int (pos (suc n)) d = pos (suc n)
or_int (negsuc n) d = negsuc n

abbrev or_topics : List String → String → List String
or_topics [] t = t ∷ []
or_topics (x ∷ xs) t = x ∷ xs

unfoldable pub with_defaults : Host → Settings → Settings
with_defaults o c = record {
  brokers = c.brokers;
  topic = or_text c.topic "tasks.events";
  topics = or_topics c.topics (or_text c.topic "tasks.events");
  group = or_text c.group "tasks-consumer";
  client_id = or_text c.client_id "golang-basics";
  dial_timeout = or_int c.dial_timeout (10 * second);
  allow_auto_topic_creation = c.allow_auto_topic_creation;
  publish_timeout = or_int c.publish_timeout (5 * second);
  statistics_interval = or_int c.statistics_interval 15000;
  security_protocol = o.lower (o.trim c.security_protocol);
  sasl_mechanism = o.upper (o.trim c.sasl_mechanism);
  sasl_username = c.sasl_username;
  sasl_password = c.sasl_password;
  sasl_password_file = c.sasl_password_file;
  ssl_ca_location = c.ssl_ca_location;
  ssl_certificate_location = c.ssl_certificate_location;
  ssl_key_location = c.ssl_key_location;
  ssl_endpoint_identification_algorithm = c.ssl_endpoint_identification_algorithm;
  producer_queue_max_kbytes = or_int c.producer_queue_max_kbytes 65536;
  producer_queue_max_messages = or_int c.producer_queue_max_messages 100000;
  message_max_bytes = or_int c.message_max_bytes 1000000;
  consumer_queue_max_kbytes = or_int c.consumer_queue_max_kbytes 4096;
  consumer_fetch_max_bytes = or_int c.consumer_fetch_max_bytes 4194304;
  consumer_partition_fetch_max_bytes = or_int c.consumer_partition_fetch_max_bytes 1048576;
  compression_type = or_text c.compression_type "lz4";
  linger_ms = or_int c.linger_ms 5;
  assignment_strategy = or_text c.assignment_strategy "cooperative-sticky";
  session_timeout_ms = or_int c.session_timeout_ms 45000;
  max_poll_interval_ms = or_int c.max_poll_interval_ms 300000;
  auto_offset_reset = or_text c.auto_offset_reset "earliest";
  max_poll_records = or_int c.max_poll_records 100;
  handler_timeout = or_int c.handler_timeout (30 * second);
  max_retries = or_int c.max_retries 5;
  retry_backoff = or_int c.retry_backoff 200000000;
  retry_backoff_max = or_int c.retry_backoff_max (30 * second);
  dead_letter_topic = or_text c.dead_letter_topic "{topic}.dlq";
  drain_timeout = or_int c.drain_timeout (10 * second);
  extra_properties = c.extra_properties;
  producer_extra_properties = c.producer_extra_properties;
  consumer_extra_properties = c.consumer_extra_properties;
}
