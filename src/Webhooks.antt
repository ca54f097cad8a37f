-- ===== src/Webhooks.antt =====
-- app/domain/webhooks: the outbox and the dispatch of its deliveries.
pub mod Outbox
pub mod Dispatch
