-- ===== src/Reports.antt =====
-- The read-only reports of the backend: the audit export, the timeline of a case and the recovery
-- summary.
pub mod Redaction
pub mod Timeline
pub mod Summary
