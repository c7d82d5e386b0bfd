-- ===== src/Contacts.antt =====
-- Contacts (domain/contacts, infra/contacts).
pub mod Models
pub mod BlockList
pub mod ContactList
