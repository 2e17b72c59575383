-- ===== src/Shell/Builtin.antt =====
-- shell/sh9/builtin.c.
pub mod Defs
pub mod Dispatch
