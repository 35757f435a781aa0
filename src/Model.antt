-- ===== src/Model.antt =====
-- The data model of internal/model, with the validation method of each type.
pub mod Trace
pub mod Experiment
pub mod Results
pub mod Fault
pub mod FaultConfig
pub mod Rule
pub mod Policy
pub mod Attack
pub mod Sdk
