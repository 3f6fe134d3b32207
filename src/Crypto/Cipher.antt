-- ===== src/Crypto/Cipher.antt =====
-- rubigram/crypto/cipher.py: the definitions, and what holds of them in two more children.
mod Defs
mod Caesar
mod Passphrase
unfoldable pub use Defs.*
pub use Caesar.*
pub use Passphrase.*
