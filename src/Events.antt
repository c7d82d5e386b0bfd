-- ===== src/Events.antt =====
-- The events that the client reports to the application.
pub mod Models
pub mod Coalescing
pub mod Dispatcher
pub mod HandlerQueue
