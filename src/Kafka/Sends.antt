-- ===== src/Kafka/Sends.antt =====
-- libs/kafka/errors.go and producer.go: what a send fails with.
use golang_basics.Base.{
  ℕ, Bool, true, false, not, Option, none, some, List, [], ◌∷◌, String, str_eq, is_empty,
  if◌then◌else◌,
}
use golang_basics.Kafka.Parking.{Header, Message, header_of}

pub data Kind : Type 0 where
  queue_full unavailable not_provisioned fatal rejected unknown : Kind

-- The codes of librdkafka that its driver has a kind for, and the others.
pub data Code : Type 0 where
  err_queue_full err_msg_timed_out err_timed_out err_request_timed_out err_transport : Code
  err_all_brokers_down err_leader_not_available err_not_leader_for_partition : Code
  err_network_exception err_not_enough_replicas err_not_enough_replicas_after_append : Code
  err_kafka_storage_error err_throttling_quota_exceeded err_unknown_topic_or_part : Code
  err_unknown_topic err_unknown_partition err_topic_authorization_failed : Code
  err_cluster_authorization_failed err_authentication err_sasl_authentication_failed : Code
  err_fatal err_msg_size_too_large err_record_list_too_large err_invalid_msg : Code
  err_invalid_record err_policy_violation err_bad_msg err_topic_exception : Code
  err_other : ℕ → Code

-- An error and what it wraps: of the client, with its code and whether it is fatal; the end of a
-- context; a *SendError with its kind, whether it is retryable and its code.
pub data Error : Type 0 where
  client : Code → Bool → Error
  context_ended : Error
  plain : String → Error
  wrapped : String → Error → Error
  send_error : Kind → Bool → Option Code → Error → Error

-- errors.Is(err, context.DeadlineExceeded) || errors.Is(err, context.Canceled)
unfoldable pub is_ended : Error → Bool
is_ended context_ended = true
is_ended (wrapped s e) = is_ended e
is_ended (send_error k r c e) = is_ended e
is_ended _ = false

-- errors.As for *SendError: its kind and whether it is retryable.
unfoldable pub as_send : Error → Option (Kind × Bool)
as_send (send_error k r c e) = some (k, r)
as_send (wrapped s e) = as_send e
as_send _ = none

-- errors.As for an error of the client.
unfoldable pub as_client : Error → Option (Code × Bool)
as_client (client c f) = some (c, f)
as_client (wrapped s e) = as_client e
as_client (send_error k r c e) = as_client e
as_client _ = none

abbrev pub is_retryable : Kind → Bool
is_retryable rejected = false
is_retryable _ = true

unfoldable pub new_send_error : Kind → Option Code → Error → Error
unfolding is_ended
new_send_error kind code err =
    let k = if is_ended err then unavailable else kind in send_error k (is_retryable k) code err

abbrev not_retryable : Option (Kind × Bool) → Bool
not_retryable none = false
not_retryable (some (k, r)) = not r

-- `Rejected`
unfoldable pub is_rejected : Error → Bool
unfolding as_send
is_rejected err = not_retryable (as_send err)

abbrev pub as_send_error : Error → Option (Kind × Bool) → Error
as_send_error err none = new_send_error unknown none err
as_send_error err (some x) = err

-- headerCarrier.Set
unfoldable pub carrier_set : String → List ℕ → List Header → List Header
carrier_set key value [] = header_of key value ∷ []
carrier_set key value (h ∷ hs) =
    let rest = carrier_set key value hs in
    if str_eq h.key key then header_of key value ∷ hs else h ∷ rest

-- What the propagator injects through the carrier, one header after the other.
unfoldable pub inject : List (String × List ℕ) → List Header → List Header
unfolding carrier_set
inject [] hs = hs
inject ((k, v) ∷ xs) hs = inject xs (carrier_set k v hs)

abbrev finish_send : Option Error → Option Error
finish_send none = none
finish_send (some e) = some (as_send_error e (as_send e))

-- `send`, over the client's Send, with what the propagator injects for the record.
unfoldable pub send :
    (Message → Option Error) → (Message → List (String × List ℕ)) → Message → Option Error
unfolding inject as_send new_send_error
send cl_send trace msg =
    finish_send (cl_send (record msg { headers = inject (trace msg) msg.headers }))

abbrev wrap : Option Error → Option Error
wrap none = none
wrap (some e) = some (wrapped "kafka: send" e)

-- Producer.Send, with the topic of the configuration.
unfoldable pub producer_send :
    String → (Message → Option Error) → (Message → List (String × List ℕ)) → Message → Option Error
unfolding send
producer_send topic cl_send trace msg =
    wrap (send cl_send trace (if is_empty msg.topic then record msg { topic = topic } else msg))
