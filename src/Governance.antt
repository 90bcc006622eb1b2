-- ===== src/Governance.antt =====
-- governance_core.py: the finding lifecycle.
pub mod Types
pub mod Rows
pub mod Exec
pub mod Validate
pub mod Events
pub mod Method
pub mod Mutate
pub mod Transitions
pub mod Lifecycle
pub mod Intake
pub mod Registry
pub mod Submission
pub mod Chain
pub mod Commits
pub mod Tests
