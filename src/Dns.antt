-- ===== src/Dns.antt =====
-- internal/checker/dns.go: the names, queries and responses of DNS, and the lookups over them.
pub mod Name
pub mod Query
pub mod Response
pub mod Servers
pub mod Lookup
pub mod Check
