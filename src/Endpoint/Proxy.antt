-- ===== src/Endpoint/Proxy.antt =====
-- internal/endpointservice/mihomo.go, mihomo_policy.go and mihomo_app.go: the local proxy beside the
-- tunnel, its policy and its coordination with the tunnel's executor.
pub mod Names
pub mod Policy
pub mod Validation
pub mod State
pub mod Coordination
pub mod Operations
pub mod AppControl
pub mod Composition
mod Tests
