-- ===== src/Ops.antt =====
-- ops/: what the deployment does around the governed operations.
pub mod Audit
pub mod RateLimit
pub mod Reconcile
pub mod Retention
pub mod Separation
