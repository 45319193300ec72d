-- ===== src/EventBus.antt =====
-- app/adapters/outbound/event_bus
pub mod Memory
pub mod RedisQueue
pub mod Publisher
