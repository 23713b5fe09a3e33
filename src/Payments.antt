-- ===== src/Payments.antt =====
-- backend/app/payments/: the clients of a payment provider, and which of them the application uses.
pub mod Razorpay
pub mod Wiring
pub mod Webhooks
