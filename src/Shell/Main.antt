-- ===== src/Shell/Main.antt =====
-- shell/sh9/shell.c.
pub mod Defs
pub mod Total
