-- ===== src/Shell/Redirect.antt =====
-- shell/sh9/redirect_in.c and redirect_out.c.
pub mod Defs
pub mod Refines
pub mod Earlier
