-- ===== src/Phases.antt =====
-- The earlier versions of the program under .phases, where they have code that the program no longer has:
-- the byte buffer of the phases 1 to 3, and the attacks on the phases 2 and 3.
pub mod Buffer
pub mod Impostor
pub mod Packets
pub mod Connection
pub mod Proxy
