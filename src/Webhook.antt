-- ===== src/Webhook.antt =====
-- pkg/webhook: delivery of incidents to an HTTP endpoint (exporter.go).
mod Tests
pub mod Payloads
pub mod Exporter
