-- ===== src/Worker/Jobs.antt =====
-- membership_worker/worker/jobs.py: creating an order, its bookkeeping, and finishing it.
mod Checks
mod Create
mod Bookkeeping
mod Replacements
mod Settle
unfoldable pub use Checks.*
unfoldable pub use Create.*
unfoldable pub use Bookkeeping.*
unfoldable pub use Replacements.*
unfoldable pub use Settle.*
