-- ===== src/Rdkafka/Sends.antt =====
-- libs/kafka-rdkafka/rdkafka.go: the producer's Send and the kinds of its errors.
pub mod Refused
use golang_basics.Base.{ℕ, zero, suc, Bool, true, false, Option, none, some, if◌then◌else◌}
use golang_basics.Kafka.Sends.{
  Kind, queue_full, unavailable, not_provisioned, fatal, rejected, unknown, Code, err_queue_full,
  err_msg_timed_out, err_timed_out, err_request_timed_out, err_transport, err_all_brokers_down,
  err_leader_not_available, err_not_leader_for_partition, err_network_exception,
  err_not_enough_replicas, err_not_enough_replicas_after_append, err_kafka_storage_error,
  err_throttling_quota_exceeded, err_unknown_topic_or_part, err_unknown_topic,
  err_unknown_partition, err_topic_authorization_failed, err_cluster_authorization_failed,
  err_authentication, err_sasl_authentication_failed, err_fatal, err_msg_size_too_large,
  err_record_list_too_large, err_invalid_msg, err_invalid_record, err_policy_violation, err_bad_msg,
  err_topic_exception, Error, context_ended, as_client, new_send_error,
}

-- `unknown` where the map has no entry.
unfoldable pub send_error_kinds : Code → Kind
send_error_kinds err_queue_full = queue_full
send_error_kinds err_msg_timed_out = unavailable
send_error_kinds err_timed_out = unavailable
send_error_kinds err_request_timed_out = unavailable
send_error_kinds err_transport = unavailable
send_error_kinds err_all_brokers_down = unavailable
send_error_kinds err_leader_not_available = unavailable
send_error_kinds err_not_leader_for_partition = unavailable
send_error_kinds err_network_exception = unavailable
send_error_kinds err_not_enough_replicas = unavailable
send_error_kinds err_not_enough_replicas_after_append = unavailable
send_error_kinds err_kafka_storage_error = unavailable
send_error_kinds err_throttling_quota_exceeded = unavailable
send_error_kinds err_unknown_topic_or_part = not_provisioned
send_error_kinds err_unknown_topic = not_provisioned
send_error_kinds err_unknown_partition = not_provisioned
send_error_kinds err_topic_authorization_failed = not_provisioned
send_error_kinds err_cluster_authorization_failed = not_provisioned
send_error_kinds err_authentication = not_provisioned
send_error_kinds err_sasl_authentication_failed = not_provisioned
send_error_kinds err_fatal = fatal
send_error_kinds err_msg_size_too_large = rejected
send_error_kinds err_record_list_too_large = rejected
send_error_kinds err_invalid_msg = rejected
send_error_kinds err_invalid_record = rejected
send_error_kinds err_policy_violation = rejected
send_error_kinds err_bad_msg = rejected
send_error_kinds err_topic_exception = rejected
send_error_kinds _ = unknown

abbrev client_error : Error → Option (Code × Bool) → Error
client_error err none = new_send_error unknown none err
client_error err (some (code, is_fatal)) =
    new_send_error (if is_fatal then fatal else send_error_kinds code) (some code) err

-- `sendError` of an error; of nil it is nil.
unfoldable pub send_error_of : Error → Error
unfolding as_client new_send_error send_error_kinds
send_error_of err = client_error err (as_client err)

abbrev pub is_full : Option (Code × Bool) → Bool
is_full (some (err_queue_full, f)) = true
is_full _ = false

abbrev pub waits_for_room : Option Error → Bool
waits_for_room none = false
waits_for_room (some err) = is_full (as_client err)

-- The loop of Send: `produce` has the answers of the attempts from now on, `waits` says how many
-- waits end before the context does.
unfoldable pub enqueue : (ℕ → Option Error) → ℕ → Option Error
unfolding as_client
enqueue produce zero = produce 0
enqueue produce (suc waits) =
    let rest = enqueue (λ i. produce (suc i)) waits in
    if waits_for_room (produce 0) then rest else produce 0

-- What comes first: a report with its error, another event, or the end of the context.
pub data Delivery : Type 0 where
  report : Option Error → Delivery
  other_event : Delivery
  no_report : Delivery

abbrev failed : Option Error → Option Error
failed none = none
failed (some err) = some (send_error_of err)

abbrev pub await : Option Error → Delivery → Option Error
await (some err) d = some (send_error_of err)
await none (report r) = failed r
await none other_event = none
await none no_report = some (send_error_of context_ended)

-- producer.Send
unfoldable pub send : (ℕ → Option Error) → ℕ → Delivery → Option Error
unfolding enqueue send_error_of
send produce waits d = await (enqueue produce waits) d
