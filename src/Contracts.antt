-- ===== src/Contracts.antt =====
-- contracts/: the canonical telemetry contract.
pub mod Quality
pub mod Error
pub mod Measurement
pub mod Envelope
pub mod Decode
pub mod Validity
mod Checks
pub mod Accepted
pub mod Topics
