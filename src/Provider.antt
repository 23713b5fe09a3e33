-- ===== src/Provider.antt =====
-- The calls of the payment provider (backend/app/domain/providers/base.py) and the webhook events
-- (backend/app/services/webhook_service.py) along the operations.
pub mod Quiet
pub mod Frames
pub mod Replies
pub mod Sends
pub mod Recheck
pub mod Charges
pub mod Durable
pub mod Events
pub mod Cycle
