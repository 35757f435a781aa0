-- ===== src/Orchestrator.antt =====
-- internal/orchestrator: the life of an experiment's runs. World holds the state and the effects,
-- Lifecycle the operations on one run, Drivers the goroutines that watch it, Schedule the order in
-- which the runs of an experiment start.
pub mod World
pub mod Harvest
pub mod Phases
pub mod Recovery
pub mod Watch
pub mod Lifecycle
pub mod Drivers
pub mod Keeps
pub mod Follows
pub mod Machine
pub mod Reaches
pub mod Success
pub mod Stuck
pub mod Schedule
