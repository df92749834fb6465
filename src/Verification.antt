-- ===== src/Verification.antt =====
-- Post-execution verification, of
-- projects/homelab-control-center/backend/app/core/intelligence/verification.
pub mod Models
pub mod Verifier
pub mod Service
