-- ===== src/Bridge.antt =====
-- The traffic between two connections: `bridgeTraffic` of server/handlers/socks5.go, and
-- `bridgeExitTraffic` and the end of `forwardToNextPeer` of server/handlers/relay.go. Two goroutines
-- run `io.Copy`, one for each direction, and report to a channel; the handler waits for the first
-- report and closes both connections.
pub mod Step
pub mod Whole
pub mod Reports
pub mod Sound
pub mod Delivered
pub mod Returns
pub mod HalfClosed
