-- ===== src/Invitations.antt =====
-- src/glip/admin_routes.py and src/glip/invitation_routes.py: invitations to a tenant and the
-- accounts that they activate.
pub mod Data
pub mod Issue
pub mod Activate
pub mod OneTime
pub mod Quota
pub mod Login
pub mod SignIn
pub mod Examples
