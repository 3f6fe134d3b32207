-- ===== src/Handlers.antt =====
-- The handlers of rubigram/handlers.
pub mod Dispatcher
pub mod Fanout
mod Tests
