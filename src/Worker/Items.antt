-- ===== src/Worker/Items.antt =====
-- membership_worker/worker/items.py: claiming an item, running its action, recording the result.
mod Claiming
mod Effects
mod Run
mod Failure
mod Process
unfoldable pub use Claiming.*
unfoldable pub use Effects.*
unfoldable pub use Run.*
unfoldable pub use Failure.*
unfoldable pub use Process.*
