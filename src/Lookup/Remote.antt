-- ===== src/Lookup/Remote.antt =====
-- The lookups that ask a server, and the servers.
pub mod Client
pub mod Server
pub mod Main
pub mod EndToEnd
pub mod Service
