-- ===== src/Shell/Reap.antt =====
-- shell/sh9/child_handler.c, and shell/sh8/child_handler.c that it replaces.
pub mod Defs
pub mod Handler
pub mod Zombies
pub mod Noticed
