-- ===== src/Messaging.antt =====
-- internal/messaging: the AMQP side of the pipeline.
pub mod Message
pub mod Delivery
pub mod Backoff
pub mod Consumer
pub mod Publisher
pub mod Settings
pub mod Relay
pub mod Bridge
mod Tests
