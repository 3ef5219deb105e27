-- ===== src/Dms.antt =====
-- fastapi/dms/: distribution management over the network model.
pub mod Network
pub mod Search
pub mod Restore
pub mod Reconfiguration
pub mod Contingency
pub mod Reports
pub mod Inference
