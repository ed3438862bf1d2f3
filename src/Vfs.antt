-- ===== src/Vfs.antt =====
-- drivers/filesystem/vfs.c and vfs.h: the virtual file system.
pub mod Handle
pub mod Path
pub mod Tree
pub mod Resolve
pub mod Calls
pub mod Editing
pub mod Naming
pub mod Walking
pub mod Parents
pub mod Slots
pub mod Borrowing
pub mod Again
pub mod Namespaces
pub mod Tests
