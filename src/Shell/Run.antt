-- ===== src/Shell/Run.antt =====
-- shell/sh9/is_background.c and run_command.c.
pub mod Defs
pub mod Background
pub mod Child
pub mod Command
