-- ===== src/Store.antt =====
-- The database and the unit of work: backend/app/models, repositories, core/errors.py and
-- services/{concurrency,audit_service}.py.
pub mod Models
pub mod Session
pub mod Repositories
pub mod Yields
