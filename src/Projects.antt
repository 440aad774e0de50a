-- ===== src/Projects.antt =====
-- src/glip/routes.py and src/glip/authz.py: the life of a project.
pub mod Data
pub mod Authz
pub mod Body
pub mod Create
pub mod Edit
pub mod Change
pub mod Archive
pub mod Replay
pub mod Lasting
pub mod Calls
pub mod Repeat
pub mod Examples
