-- ===== src/Node.antt =====
-- How a node is put together and taken down: server/handlers/registry.go, server/node/node.go,
-- server/node/setup.go, and the choice of the node's type in main.go.
pub mod Registry
pub mod Run
pub mod Setup
pub mod Shutdown
