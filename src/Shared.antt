-- ===== src/Shared.antt =====
-- The models that every part shares (crates/prose-core-client/src/domain/shared).
pub mod Ids
pub mod Names
