-- ===== src/Worker.antt =====
-- The membership worker, membership_worker/worker: orders, their items, and what settles them.
pub mod Model
pub mod Db
pub mod Selection
pub mod Services
pub mod Targets
pub mod Nonces
pub mod Rubika
pub mod Jobs
pub mod Items
pub mod Recovery
mod Invariant
pub mod Steps
pub mod Transactions
pub mod Overtaken
pub mod Guarantees
pub mod Placement
pub mod Contention
pub mod Claimed
pub mod Pacing
pub mod Replay
pub mod Callbacks
pub mod Health
pub mod Accounts
pub mod Leaves
pub mod Ended
pub mod Views
mod Tests
pub mod Counted
pub mod Finalized
