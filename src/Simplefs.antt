-- ===== src/Simplefs.antt =====
-- simplefs/: the example file system, simple.c with its headers, and its formatter mkfs.c.
pub mod Layout
pub mod State
pub mod Super
pub mod Inodes
pub mod Files
pub mod Directories
pub mod Mount
pub mod Registration
pub mod Mkfs
pub mod Interrupts
pub mod Overruns
pub mod Volume
pub mod Image
pub mod Numbers
pub mod Threads
mod Tests
