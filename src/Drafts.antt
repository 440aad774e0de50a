-- ===== src/Drafts.antt =====
-- src/glip/services.py after a draft exists: versions, approval requests, decisions, memory, with the
-- routes of src/glip/routes.py that commit them.
pub mod Data
pub mod Approval
pub mod Decide
pub mod Memory
pub mod Once
pub mod Edits
mod Examples
