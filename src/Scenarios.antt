-- ===== src/Scenarios.antt =====
-- Concrete inputs: tests by evaluation, and the theorems applied where their hypotheses hold.
mod Graphs
mod Lives
mod Compositions
mod Schedules
mod Faults
mod Rules
mod Compiled
mod Control
mod Engine
mod Stores
mod Api
mod Recovery
mod Handlers
