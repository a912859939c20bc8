-- ===== src/Tests.antt =====
-- Runs of the development on concrete input.
pub mod Blocks
pub mod Readahead
pub mod Io
pub mod Spine
pub mod Store
pub mod Group
pub mod Device
pub mod Slots
pub mod Metadata
pub mod Names
pub mod Lookup
