-- ===== src/Client.antt =====
-- pkg/generated/informers/externalversions: the informers that clients share.
pub mod Informers
