-- ===== src/Tests.antt =====
-- Runs of the development on concrete inputs.
mod Samples
mod Runs
mod Program
mod Inputs
mod Contracts
mod Mdm
mod Engines
mod Dlms
mod Driver
mod Dms
mod Controls
mod Services
mod Inference
mod Onboarding
mod Operations
mod Oms
