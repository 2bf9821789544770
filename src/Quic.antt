-- ===== src/Quic.antt =====
-- src/quic.c: what the QUIC transport does with packets and metadata. msquic itself is not modelled:
-- what its calls return is an argument.
pub mod Pool
pub mod Datagram
pub mod Stream
mod Tests
