-- ===== src/HcpMachinePool.antt =====
-- The machine pool of a cluster with a hosted control plane: provider/machinepool/hcp.
pub mod State
pub mod Server
pub mod Scaling
pub mod Populate
pub mod Read
pub mod Immutable
pub mod Update
pub mod Builder
pub mod Requests
pub mod Create
pub mod Delete
mod Tests
