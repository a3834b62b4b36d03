-- ===== src/Endpoint/Admission.antt =====
-- eap_manager.go, eap_cleanup.go, eap_validation.go: the admission to 802.1X networks.
pub mod Certificates
pub mod State
pub mod Validation
pub mod Store
pub mod Identity
pub mod Changes
pub mod Opening
pub mod Observation
pub mod Preparation
pub mod Removal
pub mod Checking
pub mod Connection
pub mod Keys
pub mod Runs
mod Tests
