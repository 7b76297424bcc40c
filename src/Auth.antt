-- ===== src/Auth.antt =====
-- knowledge/auth: who owns a conversation, and how an anonymous identity is merged into a user.
pub mod Owners
pub mod MergeJobs
pub mod Errors
pub mod OAuth
pub mod Sessions
pub mod Devices
pub mod Tokens
pub mod Users
pub mod Merging
