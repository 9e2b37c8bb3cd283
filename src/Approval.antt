-- ===== src/Approval.antt =====
-- The approval of tool calls by rules (cli/approval/manager.go).
pub mod Lists
pub mod Rule
pub mod Request
pub mod Manager
pub mod Lifecycle
pub mod Runs
pub mod Votes
pub mod Consistency
pub mod Gate
pub mod Decisions
pub mod Persist
pub mod Listing
mod Examples
