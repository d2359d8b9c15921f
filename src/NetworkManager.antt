-- ===== src/NetworkManager.antt =====
-- AgentUDTC++_v7.2/NetworkManager.cpp: the agent's sender of chunks.
pub mod Serialize
pub mod SendChunk
mod Tests
