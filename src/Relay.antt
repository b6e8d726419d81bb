-- ===== src/Relay.antt =====
-- server/handlers/relay.go: the relay protocol string and its regular expression (`Protocol`), the
-- hop by hop forwarding of a stream (`Hop`), the framing of the target address (`Target`), and what
-- is done with a stream (`Exit`).
pub mod Protocol
pub mod Split
pub mod Hop
pub mod Target
pub mod Exit
pub mod Closure
