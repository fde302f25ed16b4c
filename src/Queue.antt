-- ===== src/Queue.antt =====
-- src/queue: the messages of RabbitMQ, their retries and their deduplication.
pub mod Message
pub mod Handling
pub mod Settlement
pub mod Idempotency
pub mod Consumer
pub mod Deduplication
pub mod Delivery
pub mod Dlq
pub mod Connection
pub mod Reconnection
pub mod Backoff
pub mod Topology
pub mod Journey
pub mod Declared
pub mod Cleanup
