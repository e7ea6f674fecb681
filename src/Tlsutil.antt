-- ===== src/Tlsutil.antt =====
-- server/internal/tlsutil/cert.go: the self-signed certificate of the TLS server.
pub mod Addresses
pub mod Cert
pub mod Fingerprint
pub mod Reuse
pub mod Pins
pub mod Hosts
mod Tests
