-- ===== src/Rdkafka.antt =====
-- libs/kafka-rdkafka: the producer and the consumer over librdkafka.
pub mod Producer
pub mod Poll
pub mod Sends
