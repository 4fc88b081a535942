-- ===== src/Agent.antt =====
-- The agent server (src/orbita_agent): who may do what, and what is recorded about it.
pub mod Tenancy
pub mod Opportunity
pub mod Improvement
pub mod Uploads
pub mod Archive
pub mod Evidence
pub mod Oauth
mod Tests
