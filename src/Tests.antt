-- ===== src/Tests.antt =====
-- The theorems at concrete inputs: a network of three peers, and one module for each component.
mod Sample
mod Relay
mod Bridge
mod Discovery
mod Socks5
mod Config
mod Node
mod Key
mod Main
mod Session
mod Sessions
mod Run
mod Server
mod Life
mod Shared
mod Calls
