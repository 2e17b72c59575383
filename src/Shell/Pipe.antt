-- ===== src/Shell/Pipe.antt =====
-- shell/sh9/pipe_present.c and pipe_command.c.
pub mod Defs
pub mod Spec
pub mod Present
pub mod Refines
pub mod Wiring
