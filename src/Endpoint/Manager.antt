-- ===== src/Endpoint/Manager.antt =====
-- internal/endpointservice/manager.go, configuration_floor.go, vpn_manager.go and lifecycle.go: the
-- manager of the endpoint's VPN session.
pub mod State
pub mod Floor
pub mod Leases
pub mod Disconnect
pub mod Sync
pub mod Cycle
pub mod Connect
pub mod Obligation
pub mod Invariant
pub mod Preservation
pub mod Reach
pub mod Run
pub mod Expiry
pub mod Outcome
pub mod Admission
mod Tests
