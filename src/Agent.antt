-- ===== src/Agent.antt =====
-- agent/: what an agent may propose to the governed operations.
pub mod Authority
