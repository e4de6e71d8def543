-- ===== src/Tests.antt =====
-- Tests and examples, on a toy in the place of OpenSSL.
pub mod Samples
pub mod Buffers
pub mod Packets
pub mod Cryptography
pub mod Sessions
pub mod Servers
pub mod Editor
pub mod Clients
pub mod Connections
pub mod Handshakes
pub mod Attempts
pub mod Impostors
pub mod Interceptions
pub mod Accepting
