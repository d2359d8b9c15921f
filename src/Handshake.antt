-- ===== src/Handshake.antt =====
-- The handshake of an agent with the server: _createConnection of
-- AgentUDTC++_v7.2/UDTConnectionPool.cpp talks to handleClient of ServerUDTC++_v3/ClientHandler.cpp.
mod Steps
mod Session
mod Keys
mod Certificates
mod Psk
mod SignedMessages
mod Signed
mod CertificateMessages
mod Certificate
mod Agreement
mod Served
mod Responses
mod Authentic
mod Tests
