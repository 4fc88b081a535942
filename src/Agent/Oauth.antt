-- ===== src/Agent/Oauth.antt =====
-- src/orbita_agent/oauth.py: `GitHubOAuthProvider`, which signs operators in by GitHub and issues the
-- tokens of the agent server. A `client_id` that is `None` is "", which the source treats alike.
-- Times are whole seconds.
pub mod Settings
pub mod Protocol
pub mod Tables
pub mod Flow
pub mod Tokens
pub mod Requests
pub mod Changes
pub mod Spent
pub mod Keyed
pub mod Final
pub mod Identified
pub mod Lifetimes
mod Tests
