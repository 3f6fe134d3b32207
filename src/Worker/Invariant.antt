-- ===== src/Worker/Invariant.antt =====
-- What holds of the worker's tables between two operations, and the changes that keep it.
mod Kept
mod Sound
mod Effects
mod Claims
mod Changes
mod Outcomes
mod Settling
mod NewItems
mod Adding
mod Operations
mod Tasks
mod Recovered
mod Leaving
mod Erased
pub use Kept.*
pub use Sound.*
pub use Effects.*
pub use Claims.*
pub use Changes.*
pub use Outcomes.*
pub use Settling.*
pub use Adding.*
pub use Operations.*
pub use Tasks.*
pub use Recovered.*
pub use Leaving.*
pub use Erased.*
