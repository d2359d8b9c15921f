-- ===== src/SecurityHandshake.antt =====
-- The messages by which an agent and the server agree on a session
-- (TransferCore/SecurityHandshake.cpp).
pub mod Texts
pub mod Ops
pub mod Bundles
pub mod Splits
pub mod Dialogue
pub mod Psk
pub mod Signed
pub mod Certificate
