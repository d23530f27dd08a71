-- ===== src/Storage.antt =====
-- pkg/storage/filepath: objects kept as files, with versions, watches and the REST storage.
pub mod Objects
pub mod Version
pub mod Tree
pub mod FileSystem
pub mod Spec
pub mod MemoryFs
pub mod Contract
pub mod RealFs
pub mod WatchSet
pub mod Registry
pub mod Rest
pub mod Provider
