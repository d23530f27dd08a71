-- ===== src/Builder.antt =====
-- pkg/server/builder: strategies of resources, and the registration of resources with a server.
pub mod DeepCopy
pub mod Manifest
pub mod Strategy
pub mod Register
pub mod Provider
pub mod Scheme
pub mod Options
pub mod Store
pub mod Shared
