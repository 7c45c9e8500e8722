-- ===== src/Zip.antt =====
-- src/pkg_zip.c and the checks of src/pkg_fs.c that it calls: archives.
pub mod Bits
pub mod Huffman
pub mod Inflate
pub mod Runs
pub mod Blocks
pub mod Stored
pub mod Names
pub mod Crc
pub mod Directory
pub mod Extract
mod Tests
