-- ===== src/Crypto.antt =====
-- The character ciphers and the request envelope of rubigram/crypto.
pub mod Cipher
pub mod Auth
mod Tests
