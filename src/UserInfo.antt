-- ===== src/UserInfo.antt =====
-- What is known of a user (domain/user_info/models and infra/user_info).
pub mod UserName
pub mod Models
pub mod PresenceMap
