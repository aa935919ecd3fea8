-- ===== src/RosaCluster.antt =====
-- The cluster resources of provider/clusterrosa/classic and provider/clusterrosa/hcp, where the two
-- have the same code: the deletion with its wait, the check of channel group and version, and the
-- patch of the properties.
pub mod Destroy
pub mod Channel
pub mod Properties
pub mod Hosted
pub mod Versions
mod Tests
