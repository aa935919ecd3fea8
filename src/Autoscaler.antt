-- ===== src/Autoscaler.antt =====
-- provider/autoscaler: the validators that its resources share, and the autoscaler of a cluster with
-- a hosted control plane, of provider/autoscaler/hcp.
pub mod Validators
pub mod State
pub mod Handlers
mod Tests
