-- ===== src/Session.antt =====
-- session_credentials.go and proxy.go: the desktop client's session with a Soha server, its stored
-- refresh credential, and the switch to another server.
pub mod State
pub mod Cookies
pub mod Credentials
pub mod Proxy
pub mod Switch
pub mod Blocking
pub mod Keyring
pub mod Secure
mod Tests
