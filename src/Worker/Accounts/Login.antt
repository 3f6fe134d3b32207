-- ===== src/Worker/Accounts/Login.antt =====
-- accounts.py: the login by phone, from the code that is sent to the account that is stored.
mod State
mod Start
mod Resume
mod Verify
unfoldable pub use State.*
unfoldable pub use Start.*
unfoldable pub use Resume.*
unfoldable pub use Verify.*
