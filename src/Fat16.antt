-- ===== src/Fat16.antt =====
-- drivers/filesystem/fat16/fat16.c: the read-only FAT16 driver. Its tables of vnodes, handles and
-- devices, and the calls that register it with the VFS, are left out.
pub mod Device
pub mod Geometry
pub mod Chain
pub mod Walk
pub mod Content
pub mod Name
pub mod NameScan
pub mod NameLaws
pub mod Directory
pub mod Search
pub mod RootSearch
mod Tests
