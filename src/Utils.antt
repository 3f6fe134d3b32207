-- ===== src/Utils.antt =====
-- rubigram/utils.
pub mod Phone
