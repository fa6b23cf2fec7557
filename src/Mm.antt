-- ===== src/Mm.antt =====
-- mm/memory.c, for the configuration of include/linux/config.h (8 MB, LINUS_HD).
pub mod Frames
pub mod Pages
pub mod Spaces
mod Tests
