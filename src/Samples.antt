-- ===== src/Samples.antt =====
-- What the tests of several modules run on.
pub mod Framework
pub mod Upgrades
