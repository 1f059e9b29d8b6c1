-- ===== src/Examples.antt =====
-- Runs at concrete inputs, and the concrete tables and numbers that they use.
pub mod Instances
pub mod Domain
pub mod Vendors
pub mod Stages
pub mod Workflow
pub mod Pipeline
pub mod Store
pub mod Mail
pub mod Analysis
pub mod Resolution
pub mod History
pub mod Start
pub mod Listing
