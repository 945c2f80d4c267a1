-- ===== src/Tls.antt =====
-- internal/checker/tls.go.
pub mod Version
pub mod Names
pub mod ShortError
pub mod Cipher
pub mod Connect
pub mod Probe
