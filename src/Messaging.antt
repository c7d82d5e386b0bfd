-- ===== src/Messaging.antt =====
-- Messages and what modifies them (crates/prose-core-client/src/domain/messaging/models).
pub mod Models
pub mod Reactions
pub mod Reduce
