-- ===== src/Services.antt =====
-- backend/app/services: the operations on recovery cases.
pub mod Settings
pub mod Ingestion
pub mod Diagnosis
pub mod Execution
pub mod Webhook
pub mod Orchestrator
