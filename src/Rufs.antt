-- ===== src/Rufs.antt =====
-- The file system of project4: the emulated disk of block.c, and the bitmaps, inodes and
-- directories of rufs.c. Structs are kept as their bytes: `struct inode` has 256 of them on the
-- target.
pub mod Disk
pub mod Alloc
pub mod Inodes
pub mod Directory
pub mod Mkfs
pub mod Fuse
mod Tests
