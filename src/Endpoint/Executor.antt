-- ===== src/Endpoint/Executor.antt =====
-- internal/endpointservice/executor.go: the plan of a tunnel, and the executor that installs it.
pub mod Tunnel
pub mod Routes
pub mod Firewall
pub mod Host
pub mod Plan
pub mod Apply
pub mod Recovery
pub mod Runs
pub mod Authorized
pub mod Order
pub mod Split
pub mod Dns
pub mod Sample
mod Tests
