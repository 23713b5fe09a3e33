-- ===== src/Checks.antt =====
-- The model and its theorems on concrete data.
mod Data
mod Rules
mod Runs
mod Histories
mod Measures
mod Clients
