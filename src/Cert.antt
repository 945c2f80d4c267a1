-- ===== src/Cert.antt =====
-- internal/checker/cert.go.
pub mod Hex
pub mod Usage
pub mod Sct
pub mod Info
