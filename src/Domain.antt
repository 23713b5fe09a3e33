-- ===== src/Domain.antt =====
-- backend/app/domain: the pure core, which neither stores nor calls anything.
pub mod Enums
pub mod StateMachine
pub mod Policy
pub mod Providers
