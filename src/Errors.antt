-- ===== src/Errors.antt =====
-- The errors of rubigram/errors.
pub mod Mapping
mod Tests
