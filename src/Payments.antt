-- ===== src/Payments.antt =====
-- The payments of the protocol API: protocol-api/src/routes/payments.ts.
pub mod Checkout
pub mod Webhook
pub mod Received
pub mod Tests
