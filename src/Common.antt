-- ===== src/Common.antt =====
-- provider/common: attribute values, patches, conversions, password rules, the keyed mutex.
pub mod Attribute
pub mod Framework
pub mod Patch
pub mod Response
