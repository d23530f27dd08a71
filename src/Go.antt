-- ===== src/Go.antt =====
-- What the storage layer uses of Go's standard library: path/filepath and strconv.
pub mod Paths
pub mod Decimal
