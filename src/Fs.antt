-- ===== src/Fs.antt =====
-- fs/: pipes and file descriptors.
pub mod Pipe
pub mod Files
pub mod Buffer
pub mod Names
pub mod Reading
pub mod Volume
pub mod Inode
pub mod Truncate
pub mod Table
mod Tests
