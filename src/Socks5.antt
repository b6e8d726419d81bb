-- ===== src/Socks5.antt =====
-- The SOCKS5 proxy of a client: server/handlers/socks5.go.
pub mod Address
pub mod Digits
pub mod Handshake
pub mod Connection
pub mod Limit
pub mod Listen
pub mod Server
mod Tests
