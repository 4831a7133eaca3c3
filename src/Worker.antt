-- ===== src/Worker.antt =====
-- shared/adapter/worker.py
pub mod Statechart
pub mod Sismic
pub mod Metadata
pub mod Cleaning
pub mod Run
pub mod Simulation
pub mod Ranks
pub mod Termination
pub mod Visits
pub mod Stages
pub mod Document
pub mod Routes
pub mod Chains
pub mod Documented
