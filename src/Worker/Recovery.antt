-- ===== src/Worker/Recovery.antt =====
-- membership_worker/worker/recovery.py: lost tasks, stuck jobs, and the retention auto-leave.
mod Stale
mod AutoLeaves
unfoldable pub use Stale.*
unfoldable pub use AutoLeaves.*
