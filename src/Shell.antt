-- ===== src/Shell.antt =====
-- The shell exercise (shell/sh9, with the steps of shell/sh1 to shell/sh8 that differ from it).
pub mod Argv
pub mod Parse
pub mod Process
pub mod Redirect
pub mod Pipe
pub mod Run
pub mod Reap
pub mod Builtin
pub mod Main
mod Tests
