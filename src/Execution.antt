-- ===== src/Execution.antt =====
-- The execution boundary, of
-- projects/homelab-control-center/backend/app/core/intelligence/execution.
pub mod Models
pub mod Policy
pub mod Adapters
pub mod Translator
pub mod Engine
