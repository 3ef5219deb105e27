-- ===== src/Mdm.antt =====
-- services/mdm/: meter data management, between the telemetry bus and the trusted stream.
pub mod Validation
pub mod Duplicates
pub mod Timestamps
pub mod Gaps
pub mod Units
pub mod Quality
pub mod Enrichment
pub mod Pipeline
