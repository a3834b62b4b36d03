-- ===== src/Endpoint.antt =====
-- internal/endpointservice: the privileged endpoint network service.
pub mod Protocol
pub mod Identifier
pub mod Manager
pub mod Executor
pub mod Proxy
pub mod Admission
