-- ===== src/Fat.antt =====
-- kernel/fat.cpp and kernel/fat.hpp: the FAT32 volume.
pub mod Table
pub mod File
pub mod Writing
pub mod Names
pub mod Directory
pub mod Samples
