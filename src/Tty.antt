-- ===== src/Tty.antt =====
-- Terminals: include/linux/tty.h, kernel/tty_io.c and kernel/console.c.
pub mod Queue
pub mod Screen
pub mod Output
pub mod Escape
pub mod Console
mod Tests
