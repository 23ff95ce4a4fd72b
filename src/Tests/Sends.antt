-- ===== src/Tests/Sends.antt =====
-- Sends through the librdkafka driver: a full queue, a record that is too large, a fatal error.
use golang_basics.Base.{
  ℕ, zero, suc, ◌≤◌, ◌<◌, true, false, Option, none, some, List, [], ◌∷◌, String, ◌≡◌, refl,
}
use golang_basics.Kafka.Parking.{Message, header_of}
use golang_basics.Kafka.Sends.{
  queue_full, err_queue_full, err_msg_size_too_large, Error, client, fatal, send_error, wrapped,
  carrier_set, producer_send,
}
use golang_basics.Rdkafka.Sends.{waits_for_room, Delivery, report, no_report, send}
use golang_basics.Rdkafka.Sends.Refused.{cause, AnswersTo, send-AnswersTo}

abbrev record_of : String → Message
record_of topic = record {
  topic = topic;
  key = [];
  value = [];
  partition = 0;
  offset = 0;
  headers = header_of "traceparent" (1 ∷ []) ∷ [];
}

abbrev full_once : ℕ → Option Error
full_once zero = some (client err_queue_full false)
full_once (suc n) = none

abbrev too_large : Delivery
too_large = report (some (client err_msg_size_too_large false))

abbrev trace : Message → List (String × List ℕ)
trace m = ("traceparent", 2 ∷ []) ∷ ("tracestate", 3 ∷ []) ∷ []

carrier_test :
    carrier_set "traceparent" (2 ∷ []) (header_of "a" [] ∷ header_of "traceparent" (1 ∷ []) ∷ [])
    ≡ (header_of "a" [] ∷ header_of "traceparent" (2 ∷ []) ∷ [])
unfolding carrier_set
carrier_test = refl

full_test :
    send full_once 0 too_large
    ≡ some (send_error queue_full true (some err_queue_full) (client err_queue_full false))
unfolding send
full_test = refl

fatal_test :
    producer_send "events"
      (λ m. send (λ i. some (client err_msg_size_too_large true)) 3 no_report)
      trace
      (record_of "")
    ≡ some (
        wrapped "kafka: send" (
          send_error fatal true (some err_msg_size_too_large) (client err_msg_size_too_large true)))
unfolding producer_send send
fatal_test = refl

send-AnswersTo_example :
    (n : ℕ) × (n ≤ 5)
    × AnswersTo
        (cause (full_once n) too_large)
        (producer_send "events" (λ m. send full_once 5 too_large) trace (record_of ""))
    × ((i : ℕ) → i < n → waits_for_room (full_once i) ≡ true)
    × (waits_for_room (full_once n) ≡ true → n ≡ 5)
send-AnswersTo_example = send-AnswersTo full_once 5 too_large "events" trace (record_of "")
