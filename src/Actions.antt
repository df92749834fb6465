-- ===== src/Actions.antt =====
-- The governance layer, of projects/homelab-control-center/backend/app/core/intelligence/actions.
pub mod Models
pub mod Policy
pub mod Simulation
pub mod ApprovalPolicy
pub mod Binding
pub mod Assessment
pub mod Approval
pub mod Authorization
