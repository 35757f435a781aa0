-- ===== src/Store.antt =====
-- The tables of internal/store, as lists of rows.
pub mod Tables
pub mod Runs
pub mod FaultRows
pub mod Faults
pub mod Experiments
pub mod Policies
pub mod Workflows
pub mod Attacks
pub mod Rules
pub mod Sdk
