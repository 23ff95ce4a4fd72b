-- ===== src/Kafka/Settings/Checks.antt =====
-- libs/kafka/config.go: what Validate reports.
use golang_basics.Base.{
  ℕ, ◌*◌, ltb, ◌+◌, ◌-◌, ◌%◌, ◌^◌, Bool, true, false, not, ◌&&◌, ◌||◌, Option, none, some, List, [],
  ◌∷◌, ◌++◌, String, str_eq, is_empty, if◌then◌else◌,
}
use golang_basics.Base.Int.{ℤ, pos, negsuc, ltb_ℤ}
use golang_basics.Kafka.Settings.{Settings, File, missing, directory, file, Host, with_defaults}

pub data Problem : Type 0 where
  no_brokers empty_broker unknown_codec unknown_reset unknown_strategy : Problem
  negative_session poll_below_session negative_linger negative_duration : Problem
  backoff_below negative_records spaced_topic : Problem
  driver_problem : String → Problem
  unknown_protocol two_passwords sasl_incomplete sasl_no_mechanism unknown_mechanism : Problem
  sasl_unused ssl_unused half_key_pair password_file unreadable_file unknown_algorithm : Problem
  negative_buffer record_over_queue fetch_below_record partition_over_fetch : Problem

abbrev pub problem_if : Bool → Problem → List Problem
problem_if true p = p ∷ []
problem_if false p = []

-- `errors.Join` of the lists of a function.
abbrev errors_join : List (List Problem) → List Problem
errors_join [] = []
errors_join (ps ∷ pss) = ps ++ errors_join pss

unfoldable pub one_of : List String → String → Bool
one_of [] s = false
one_of (x ∷ xs) s = str_eq x s || one_of xs s

unfoldable pub any_blank : Host → List String → Bool
any_blank o [] = false
any_blank o (b ∷ bs) = is_empty (o.trim b) || any_blank o bs

-- One problem for each negative value.
unfoldable pub negatives : Problem → List ℤ → List Problem
negatives p [] = []
negatives p (n ∷ ns) = problem_if (ltb_ℤ n (pos 0)) p ++ negatives p ns

abbrev driver_errors : List String → List Problem
driver_errors [] = []
driver_errors (e ∷ es) = driver_problem e ∷ driver_errors es

-- Whether the protocol has SASL, and whether it has TLS.
abbrev pub protocol_of : String → Option (Bool × Bool)
protocol_of p =
    if is_empty p || str_eq p "plaintext"
    then some (false, false)
    else if str_eq p "ssl"
    then some (false, true)
    else if str_eq p "sasl_plaintext"
    then some (true, false)
    else if str_eq p "sasl_ssl"
    then some (true, true)
    else none

abbrev pub mechanisms : List String
mechanisms = "PLAIN" ∷ "SCRAM-SHA-256" ∷ "SCRAM-SHA-512" ∷ []

abbrev pub has_password : Settings → Bool
has_password c = not (is_empty c.sasl_password) || not (is_empty c.sasl_password_file)

abbrev pub sasl_problems : Settings → Bool → List Problem
sasl_problems c true =
    if one_of mechanisms c.sasl_mechanism
    then problem_if (is_empty c.sasl_username || not (has_password c)) sasl_incomplete
    else problem_if (is_empty c.sasl_mechanism) sasl_no_mechanism
      ++ problem_if (not (is_empty c.sasl_mechanism)) unknown_mechanism
sasl_problems c false =
    problem_if (not (is_empty c.sasl_mechanism) || not (is_empty c.sasl_username) || has_password c)
      sasl_unused

abbrev pub uses_ssl : Settings → Bool
uses_ssl c =
    not (is_empty c.ssl_ca_location)
    || not (is_empty c.ssl_certificate_location)
    || not (is_empty c.ssl_key_location)
    || not (is_empty c.ssl_endpoint_identification_algorithm)

-- The password's file must be read and hold something.
abbrev is_password_file : File → Bool
is_password_file missing = false
is_password_file directory = false
is_password_file (file blank) = not blank

-- `readable`
unfoldable pub readable : Bool → File → Bool
readable dir_ok missing = false
readable dir_ok directory = dir_ok
readable dir_ok (file blank) = true

unfoldable pub validate_files : Host → Settings → List Problem
unfolding readable
validate_files o c = errors_join (
    (problem_if
      (not (is_empty c.sasl_password_file)
        && not (is_password_file (o.open_file c.sasl_password_file)))
      password_file)
    ∷ (problem_if
        (not (is_empty c.ssl_ca_location)
          && not (str_eq c.ssl_ca_location "probe")
          && not (readable true (o.open_file c.ssl_ca_location)))
        unreadable_file)
    ∷ (problem_if
        (not (is_empty c.ssl_certificate_location)
          && not (readable false (o.open_file c.ssl_certificate_location)))
        unreadable_file)
    ∷ (problem_if
        (not (is_empty c.ssl_key_location) && not (readable false (o.open_file c.ssl_key_location)))
        unreadable_file)
    ∷ [])

abbrev differ : Bool → Bool → Bool
differ true b = not b
differ false b = b

abbrev pub protocol_problems : Host → Settings → Option (Bool × Bool) → List Problem
protocol_problems o c none = unknown_protocol ∷ []
protocol_problems o c (some (sasl, tls)) = errors_join (
    (problem_if (not (is_empty c.sasl_password) && not (is_empty c.sasl_password_file))
      two_passwords)
    ∷ (sasl_problems c sasl)
    ∷ (problem_if (not tls && uses_ssl c) ssl_unused)
    ∷ (problem_if (differ (is_empty c.ssl_certificate_location) (is_empty c.ssl_key_location))
        half_key_pair)
    ∷ (validate_files o c)
    ∷ (problem_if
        (not (one_of ("" ∷ "https" ∷ "none" ∷ []) c.ssl_endpoint_identification_algorithm))
        unknown_algorithm)
    ∷ [])

unfoldable pub validate_security : Host → Settings → List Problem
unfolding validate_files one_of
validate_security o c = protocol_problems o c (protocol_of c.security_protocol)

-- `n * 1024` in an int of 64 bits, which wraps around.
abbrev pub wrapped : ℕ → ℤ
wrapped r = if ltb r (2 ^ 63) then pos r else negsuc (2 ^ 64 - 1 - r)

abbrev pub kib : ℤ → ℤ
kib (pos n) = wrapped (n * 1024 % 2 ^ 64)
kib (negsuc n) = wrapped ((2 ^ 64 - (n + 1) * 1024 % 2 ^ 64) % 2 ^ 64)

abbrev pub sizes : Settings → List ℤ
sizes c =
    c.producer_queue_max_kbytes ∷ c.producer_queue_max_messages ∷ c.message_max_bytes
    ∷ c.consumer_queue_max_kbytes ∷ c.consumer_fetch_max_bytes
    ∷ c.consumer_partition_fetch_max_bytes ∷ []

unfoldable pub validate_buffers : Settings → List Problem
unfolding negatives
validate_buffers c = errors_join (
    (negatives negative_buffer (sizes c))
    ∷ (problem_if (ltb_ℤ (kib c.producer_queue_max_kbytes) c.message_max_bytes) record_over_queue)
    ∷ (problem_if (ltb_ℤ c.consumer_fetch_max_bytes c.message_max_bytes) fetch_below_record)
    ∷ (problem_if (ltb_ℤ c.consumer_fetch_max_bytes c.consumer_partition_fetch_max_bytes)
        partition_over_fetch)
    ∷ [])

abbrev pub interval_problems : Settings → List Problem
interval_problems c =
    if ltb_ℤ c.session_timeout_ms (pos 0) || ltb_ℤ c.max_poll_interval_ms (pos 0)
    then negative_session ∷ []
    else problem_if (ltb_ℤ c.max_poll_interval_ms c.session_timeout_ms) poll_below_session

abbrev pub no_broker : List String → Bool
no_broker [] = true
no_broker (b ∷ bs) = false

unfoldable pub problems : Host → Settings → List Problem
unfolding validate_security validate_buffers one_of any_blank negatives
problems o c = errors_join (
    (problem_if (no_broker c.brokers) no_brokers)
    ∷ (problem_if (any_blank o c.brokers) empty_broker)
    ∷ (validate_security o c)
    ∷ (validate_buffers c)
    ∷ (problem_if
        (not (one_of ("none" ∷ "gzip" ∷ "snappy" ∷ "lz4" ∷ "zstd" ∷ []) c.compression_type))
        unknown_codec)
    ∷ (problem_if (not (one_of ("earliest" ∷ "latest" ∷ []) c.auto_offset_reset)) unknown_reset)
    ∷ (problem_if
        (not (one_of ("cooperative-sticky" ∷ "range" ∷ "roundrobin" ∷ []) c.assignment_strategy))
        unknown_strategy)
    ∷ (interval_problems c)
    ∷ (problem_if (ltb_ℤ c.linger_ms (pos 0)) negative_linger)
    ∷ (negatives negative_duration (
        c.dial_timeout ∷ c.publish_timeout ∷ c.handler_timeout ∷ c.retry_backoff
        ∷ c.retry_backoff_max ∷ c.drain_timeout ∷ []))
    ∷ (problem_if (ltb_ℤ c.retry_backoff_max c.retry_backoff) backoff_below)
    ∷ (problem_if (ltb_ℤ c.max_poll_records (pos 0)) negative_records)
    ∷ (problem_if (not (str_eq (o.trim c.dead_letter_topic) c.dead_letter_topic)) spaced_topic)
    ∷ (driver_errors (o.driver_problems c))
    ∷ [])

-- `Validate`: the defaults are applied to the configuration itself. A problem stands for a message,
-- without the key and the value that it names.
unfoldable pub validate : Host → Settings → List Problem × Settings
unfolding with_defaults problems
validate o c = let c' = with_defaults o c in (problems o c', c')
