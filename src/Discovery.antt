-- ===== src/Discovery.antt =====
-- server/handlers/discovery.go: the records of `ServerDiscovery` and what libp2p does for it
-- (`State`), load tracking (`Loads`), failure tracking (`Failures`), selection (`Select`), discovery
-- rounds (`Refresh`), the list that is offered for selection (`Available`), and the goroutine that
-- refreshes it (`Periodic`).
pub mod State
pub mod Loads
pub mod Failures
pub mod Select
pub mod Refresh
pub mod Available
pub mod Periodic
pub mod Calls
