-- ===== src/Server.antt =====
-- server: the config server, which answers named bindings to authenticated callers over HTTP.
pub mod Bindings
pub mod Resolver
pub mod Wire
pub mod Handler
pub mod Watch
pub mod Isolation
pub mod Tests
