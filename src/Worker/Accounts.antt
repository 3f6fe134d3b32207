-- ===== src/Worker/Accounts.antt =====
-- membership_worker/worker/accounts.py: account rows, and the logins by phone in its children.
pub mod Rows
pub mod Login
pub mod Clients
pub mod Outcomes
mod Tests
