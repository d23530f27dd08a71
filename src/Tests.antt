-- ===== src/Tests.antt =====
-- Runs of the theorems on concrete inputs.
mod Machine
mod Storage
mod Update
mod Rounds
mod Rivals
mod Listing
mod Complete
mod Watch
mod Disk
mod Registration
mod Manifests
mod Providers
mod Schemes
mod Builders
mod Server
mod Run
mod Informers
