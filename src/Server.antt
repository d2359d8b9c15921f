-- ===== src/Server.antt =====
-- The server (ServerUDTC++_v3): its database, its FileReceiver and the handler of a client.
pub mod ServerConfig
pub mod Database
pub mod FileReceiver
mod Tests
pub mod ClientHandler
