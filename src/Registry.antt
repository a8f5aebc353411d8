-- ===== src/Registry.antt =====
-- modules/registry: the catalogue, the platforms it is served to, and the publishing side.
pub mod Platforms
pub mod Signing
pub mod Build
pub mod Cache
pub mod Publishers
pub mod Apps
pub mod Versions
pub mod Submissions
pub mod Decisions
pub mod Headers
pub mod Public
pub mod Operators
