-- ===== src/Delivery.antt =====
-- outbox_delivery.py and audit_delivery.py: at-least-once delivery of the governance events.
pub mod Lease
pub mod Outbox
pub mod Exports
pub mod Tests
