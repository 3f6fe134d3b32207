-- ===== src/Internal.antt =====
-- What the membership worker and the panel share: rubigram_internal.
pub mod Signing
