-- ===== src/Kafka.antt =====
-- libs/kafka: the consumer loop, what it commits, the records it parks, and sends.
pub mod Partitions
pub mod Ledger
pub mod Parking
pub mod Processing
pub mod Settings
pub mod Sends
