-- ===== src/Rdkafka/Sends/Refused.antt =====
-- libs/kafka-rdkafka/rdkafka.go and libs/kafka: which failures of a send are the record's own.
use golang_basics.Base.{
  ℕ, zero, suc, ◌≤◌, ◌<◌, Bool, true, false, not, ◌&&◌, Option, none, some, List, String, ◌≡◌, ◌≢◌,
  refl, ap, sym, subst, inl, inr, Bool-cases, arith,
}
use golang_basics.Kafka.Parking.{Message}
use golang_basics.Kafka.Sends.{
  Code, err_msg_size_too_large, err_record_list_too_large, err_invalid_msg, err_invalid_record,
  err_policy_violation, err_bad_msg, err_topic_exception, Error, context_ended, is_ended, as_send,
  as_client, new_send_error, is_rejected, as_send_error, wrapped, producer_send, Kind, is_retryable,
}
use golang_basics.Kafka.Sends.{
  err_queue_full, err_msg_timed_out, err_timed_out, err_request_timed_out, err_transport,
  err_all_brokers_down, err_leader_not_available, err_not_leader_for_partition,
  err_network_exception, err_not_enough_replicas, err_not_enough_replicas_after_append,
  err_kafka_storage_error, err_throttling_quota_exceeded, err_unknown_topic_or_part,
  err_unknown_topic, err_unknown_partition, err_topic_authorization_failed,
  err_cluster_authorization_failed, err_authentication, err_sasl_authentication_failed, err_fatal,
  err_other,
}
use golang_basics.Rdkafka.Sends.{
  send_error_kinds, client_error, send_error_of, waits_for_room, enqueue, Delivery, report,
  other_event, no_report, await, send,
}

-- The codes with which a broker, or librdkafka before sending, refuses a record.
unfoldable refuses : Code → Bool
refuses err_msg_size_too_large = true
refuses err_record_list_too_large = true
refuses err_invalid_msg = true
refuses err_invalid_record = true
refuses err_policy_violation = true
refuses err_bad_msg = true
refuses err_topic_exception = true
refuses _ = false

abbrev refusing : Option (Code × Bool) → Bool
refusing none = false
refusing (some (code, is_fatal)) = not is_fatal && refuses code

-- An error of the client with such a code that is not fatal and wraps no end of a context.
unfoldable pub is_refusal : Error → Bool
unfolding refuses
is_refusal err = not (is_ended err) && refusing (as_client err)

-- What a send failed with: an attempt that was not for want of room, or the last one, else the report
-- of the record, else the end of the context.
pub cause : Option Error → Delivery → Option Error
cause (some err) d = some err
cause none (report r) = r
cause none other_event = none
cause none no_report = some context_ended

-- A send that fails has a *SendError, rejected when its cause is a refusal; any other acknowledges.
unfoldable pub AnswersTo : Option Error → Option Error → Type 0
AnswersTo none none = Unit
AnswersTo (some c) (some e) = (as_send e ≢ none) × (is_rejected e ≡ is_refusal c)
AnswersTo _ _ = ⊥

kinds-refuses : (c : Code) → not (is_retryable (send_error_kinds c)) ≡ refuses c
unfolding send_error_kinds refuses
kinds-refuses err_queue_full = refl
kinds-refuses err_msg_timed_out = refl
kinds-refuses err_timed_out = refl
kinds-refuses err_request_timed_out = refl
kinds-refuses err_transport = refl
kinds-refuses err_all_brokers_down = refl
kinds-refuses err_leader_not_available = refl
kinds-refuses err_not_leader_for_partition = refl
kinds-refuses err_network_exception = refl
kinds-refuses err_not_enough_replicas = refl
kinds-refuses err_not_enough_replicas_after_append = refl
kinds-refuses err_kafka_storage_error = refl
kinds-refuses err_throttling_quota_exceeded = refl
kinds-refuses err_unknown_topic_or_part = refl
kinds-refuses err_unknown_topic = refl
kinds-refuses err_unknown_partition = refl
kinds-refuses err_topic_authorization_failed = refl
kinds-refuses err_cluster_authorization_failed = refl
kinds-refuses err_authentication = refl
kinds-refuses err_sasl_authentication_failed = refl
kinds-refuses err_fatal = refl
kinds-refuses err_msg_size_too_large = refl
kinds-refuses err_record_list_too_large = refl
kinds-refuses err_invalid_msg = refl
kinds-refuses err_invalid_record = refl
kinds-refuses err_policy_violation = refl
kinds-refuses err_bad_msg = refl
kinds-refuses err_topic_exception = refl
kinds-refuses (err_other n) = refl

client_error-refusal :
    (err : Error) (o : Option (Code × Bool))
    → is_rejected (client_error err o) ≡ (not (is_ended err) && refusing o)
unfolding is_rejected new_send_error
client_error-refusal err none = ground arith
client_error-refusal err (some (code, true)) = ground arith
client_error-refusal err (some (code, false)) = ground (arith, kinds-refuses code)

client_error-as_send :
    (err : Error) (o : Option (Code × Bool)) → as_send (client_error err o) ≢ none
unfolding as_send new_send_error
client_error-as_send err none h = cc
client_error-as_send err (some (code, f)) h = cc

kept_as : (e : Error) (o : Option (Kind × Bool)) → o ≢ none → as_send_error e o ≡ e
kept_as e none h = ground (arith, h refl)
kept_as e (some x) h = refl

-- A *SendError goes through `send` and the text of Producer.Send as it is.
producer_send-kept :
    (topic : String) (trace : Message → List (String × List ℕ)) (msg : Message) (e : Error)
    → as_send e ≢ none
    → producer_send topic (λ m. some e) trace msg ≡ some (wrapped "kafka: send" e)
unfolding producer_send
producer_send-kept topic trace msg e h =
    ap (λ x. some (wrapped "kafka: send" x)) (kept_as e (as_send e) h)

refused-AnswersTo :
    (c : Error) → AnswersTo (some c) (some (wrapped "kafka: send" (send_error_of c)))
unfolding AnswersTo send_error_of is_rejected as_send is_refusal
refused-AnswersTo c = (client_error-as_send c (as_client c), client_error-refusal c (as_client c))

failed-AnswersTo :
    (topic : String) (trace : Message → List (String × List ℕ)) (msg : Message) (c : Error)
    → AnswersTo (some c) (producer_send topic (λ m. some (send_error_of c)) trace msg)
unfolding send_error_of
failed-AnswersTo topic trace msg c =
    subst (AnswersTo (some c))
      (sym (
        producer_send-kept topic trace msg (send_error_of c)
          (client_error-as_send c (as_client c))))
      (refused-AnswersTo c)

acknowledged-AnswersTo :
    (topic : String) (trace : Message → List (String × List ℕ)) (msg : Message)
    → AnswersTo none (producer_send topic (λ m. none) trace msg)
unfolding AnswersTo producer_send
acknowledged-AnswersTo topic trace msg = tt

await-AnswersTo :
    (o : Option Error) (d : Delivery) (topic : String) (trace : Message → List (String × List ℕ))
    (msg : Message)
    → AnswersTo (cause o d) (producer_send topic (λ m. await o d) trace msg)
unfolding cause
await-AnswersTo (some err) d topic trace msg = failed-AnswersTo topic trace msg err
await-AnswersTo none (report (some err)) topic trace msg = failed-AnswersTo topic trace msg err
await-AnswersTo none (report none) topic trace msg = acknowledged-AnswersTo topic trace msg
await-AnswersTo none other_event topic trace msg = acknowledged-AnswersTo topic trace msg
await-AnswersTo none no_report topic trace msg = failed-AnswersTo topic trace msg context_ended

before-suc :
    (produce : ℕ → Option Error) (n : ℕ)
    → waits_for_room (produce 0) ≡ true
    → ((i : ℕ) → i < n → waits_for_room (produce (suc i)) ≡ true)
    → (i : ℕ) → i < suc n
    → waits_for_room (produce i) ≡ true
before-suc produce n e h zero l = e
before-suc produce n e h (suc i) l = h i (omega arith)

-- The attempt that the loop ends with: those before it wanted room, and it does only when the
-- context has ended.
enqueue-last :
    (produce : ℕ → Option Error) (waits : ℕ)
    → (n : ℕ) × (n ≤ waits)
      × (enqueue produce waits ≡ produce n)
      × ((i : ℕ) → i < n → waits_for_room (produce i) ≡ true)
      × (waits_for_room (produce n) ≡ true → n ≡ waits)
unfolding enqueue
enqueue-last produce zero = (0, omega arith, refl, (λ i h. ground arith), λ h. refl)
enqueue-last produce (suc waits) = elim (Bool-cases (waits_for_room (produce 0))) [
  | inl e ↦
      let (n, le, eq, before, last) = enqueue-last (λ i. produce (suc i)) waits in
      (suc n, omega arith, rw e eq, before-suc produce n e before, λ h. ap suc (last h))
  | inr e ↦ (0, omega arith, rw e refl, (λ i h. ground arith), λ h. ground arith)
]

-- However the attempts to enqueue end and whatever comes of the record: Producer.Send over the
-- librdkafka driver returns nil when nothing failed, and otherwise a *SendError, which Rejected calls
-- the record's own exactly when what failed is an error of the client that is not fatal, wraps no end
-- of a context and has a code that refuses records; the attempt that counts came after attempts for
-- which there was no room, and wanted room itself only when the context had ended.
pub send-AnswersTo :
    (produce : ℕ → Option Error) (waits : ℕ) (d : Delivery) (topic : String)
    (trace : Message → List (String × List ℕ)) (msg : Message)
    → (n : ℕ) × (n ≤ waits)
      × AnswersTo (cause (produce n) d) (producer_send topic (λ m. send produce waits d) trace msg)
      × ((i : ℕ) → i < n → waits_for_room (produce i) ≡ true)
      × (waits_for_room (produce n) ≡ true → n ≡ waits)
unfolding send
send-AnswersTo produce waits d topic trace msg =
    let (n, le, eq, before, last) = enqueue-last produce waits in
    (
      n,
      le,
      subst
          (λ o.
            AnswersTo (cause o d)
              (producer_send topic (λ m. await (enqueue produce waits) d) trace msg))
          eq (await-AnswersTo (enqueue produce waits) d topic trace msg),
      before,
      last,
    )
