-- ===== src/Budget.antt =====
-- app/budget: purchase requests against a budget, and the ledger that backs them.
pub mod Models
pub mod Storage
pub mod Repository
pub mod Balance
pub mod Terms
pub mod Validate
pub mod Post
pub mod Apply
pub mod Sound
pub mod Requests
pub mod Reachable
pub mod Observer
pub mod Adapter
pub mod Evaluators
pub mod Apart
pub mod Service
