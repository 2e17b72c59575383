-- ===== src/Shell/Argv.antt =====
-- `argv` vectors: arrays of `char *` that end in NULL. Reading a cell that was never written, or
-- one outside the array, is a fault (`none`).
mod Scan
mod CloseUp
mod Cut
pub use Scan.*
pub use CloseUp.*
unfoldable pub use Cut.*
mod Defs
unfoldable pub use Defs.*
