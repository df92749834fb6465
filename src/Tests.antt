-- ===== src/Tests.antt =====
-- Concrete inputs, and the theorems applied to them.
mod Fixtures
mod Policies
mod Stores
mod Engine
mod Governed
mod Approvals
mod Restarts
mod Continuations
mod Operations
mod Audits
mod Archives
mod Decisions
mod Ledgers
