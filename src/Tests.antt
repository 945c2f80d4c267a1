-- ===== src/Tests.antt =====
-- Tests on concrete inputs, and instances of the theorems.
mod Dns
mod Lookup
mod Target
mod Cert
mod Check
mod Security
mod Tls
mod Network
mod Verify
mod Run
mod Kubernetes
mod Cli
mod Gui
mod Render
