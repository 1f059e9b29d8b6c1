-- ===== src/Workflow.antt =====
-- internal/manualmailworkflow/application: the five stages of one run and its stored history.
pub mod Types
pub mod Validation
pub mod Messages
pub mod ErrorMessages
pub mod Progress
pub mod StatusRepository
pub mod History
pub mod Parts
pub mod Run
pub mod Start
pub mod Listing
pub mod Protocol
pub mod Adapters
