-- ===== src/MachinePool.antt =====
-- provider/machinepool/classic: the machine pool of a classic cluster.
pub mod State
pub mod Zones
pub mod Scaling
pub mod Populate
pub mod Server
pub mod Update
pub mod Builder
pub mod Requests
pub mod Create
pub mod Read
pub mod Delete
mod Tests
