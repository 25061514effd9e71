-- ===== src/Webhook.antt =====
-- Inbound webhooks: app/core/webhook_security.py, app/services/webhook_service.py,
-- app/services/idempotency_service.py and app/api/routes/webhooks.py.
pub mod Signature
pub mod Header
pub mod Store
pub mod Idempotency
pub mod Replay
