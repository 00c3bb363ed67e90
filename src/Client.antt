-- ===== src/Client.antt =====
-- internal/clientcore: the client's connection to the server.
pub mod Errors
pub mod Reconnect
pub mod Requests
