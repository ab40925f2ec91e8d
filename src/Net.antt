-- ===== src/Net.antt =====
-- src/net: the wire format, the packet buffers and the clients.
pub mod Crypto
