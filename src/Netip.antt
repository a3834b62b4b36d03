-- ===== src/Netip.antt =====
-- The part of Go's `net/netip` and `net` that internal/endpointservice uses: addresses, prefixes,
-- how both are read from a text, and when a text is the one that `String` prints.
pub mod Addr
pub mod Parse
pub mod Print
pub mod Inclusion
mod Tests
