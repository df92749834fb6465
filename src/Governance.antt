-- ===== src/Governance.antt =====
-- The governed lifecycle: actions/service.py and actions/approval_service.py.
pub mod Platform
pub mod Records
pub mod Service
pub mod Approve
