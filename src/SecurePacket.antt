-- ===== src/SecurePacket.antt =====
-- TransferCore/SecurePacket.h and .cpp: the encrypted envelope of packets and control messages.
-- `Crypto` has what OpenSSL does, `Hex` the hexadecimal session ids, `Envelope` the parsing of the
-- envelope, `Seal` encryption and `Open` decryption, `Control` the control messages.
pub mod Crypto
pub mod Hex
pub mod Envelope
pub mod Seal
pub mod Unseal
pub mod Control
pub mod Reading
pub mod Parsed
pub mod RoundTrip
pub mod ControlTrip
mod Tests
