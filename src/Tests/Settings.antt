-- ===== src/Tests/Settings.antt =====
-- The configuration of a consumer with one broker and SASL over TLS.
use golang_basics.Base.{Bool, ◌≡◌, refl, false, some, [], ◌∷◌}
use golang_basics.Base.Int.{pos, negsuc}
use golang_basics.Kafka.Settings.{Settings, Host, file, with_defaults}
use golang_basics.Kafka.Settings.Checks.{
  validate, problems, validate_security, validate_buffers, validate_files, one_of, any_blank,
  negatives, protocol_of, sasl_unused, negative_buffer, record_over_queue,
}
use golang_basics.Kafka.Settings.Accepts.{IsSecured, IsBounded, validate-safe}

abbrev host : Host
host = record {
  trim = λ s. s;
  lower = λ s. s;
  upper = λ s. s;
  open_file = λ s. file false;
  driver_problems = λ c. [];
}

abbrev plain : Settings
plain = record {
  brokers = "kafka:9092" ∷ [];
  topic = "";
  topics = [];
  group = "";
  client_id = "";
  dial_timeout = pos 0;
  allow_auto_topic_creation = false;
  publish_timeout = pos 0;
  statistics_interval = pos 0;
  security_protocol = "";
  sasl_mechanism = "";
  sasl_username = "";
  sasl_password = "";
  sasl_password_file = "";
  ssl_ca_location = "";
  ssl_certificate_location = "";
  ssl_key_location = "";
  ssl_endpoint_identification_algorithm = "";
  producer_queue_max_kbytes = pos 0;
  producer_queue_max_messages = pos 0;
  message_max_bytes = pos 0;
  consumer_queue_max_kbytes = pos 0;
  consumer_fetch_max_bytes = pos 0;
  consumer_partition_fetch_max_bytes = pos 0;
  compression_type = "";
  linger_ms = pos 0;
  assignment_strategy = "";
  session_timeout_ms = pos 0;
  max_poll_interval_ms = pos 0;
  auto_offset_reset = "";
  max_poll_records = pos 0;
  handler_timeout = pos 0;
  max_retries = pos 0;
  retry_backoff = pos 0;
  retry_backoff_max = pos 0;
  dead_letter_topic = "";
  drain_timeout = pos 0;
  extra_properties = [];
  producer_extra_properties = [];
  consumer_extra_properties = [];
}

abbrev secured : Settings
secured = record plain {
  security_protocol = "sasl_ssl";
  sasl_mechanism = "SCRAM-SHA-512";
  sasl_username = "tasks";
  sasl_password_file = "/run/secrets/kafka";
}

-- A user without SASL, a negative bound and a record that no queue holds.
refused_test :
    (validate host
      (record plain { sasl_username = "tasks"; producer_queue_max_kbytes = negsuc 0 })).0
    ≡ sasl_unused ∷ negative_buffer ∷ record_over_queue ∷ []
unfolding validate problems validate_security validate_buffers validate_files one_of any_blank
    negatives with_defaults
refused_test = refl

accepted : (validate host secured).0 ≡ []
unfolding validate problems validate_security validate_buffers validate_files one_of any_blank
    negatives with_defaults
accepted = refl

validate-safe_example :
    ((u : Bool × Bool) × (protocol_of (validate host secured).1.security_protocol ≡ some u)
      × IsSecured (validate host secured).1 u)
    × IsBounded (validate host secured).1
validate-safe_example = validate-safe host secured accepted
