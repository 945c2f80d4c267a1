-- ===== src/Types.antt =====
-- internal/checker/types.go: the records, field by field.
mod Go
mod Input
mod Probes
mod Certs
mod Report
pub use Go.*
pub use Input.*
pub use Probes.*
pub use Certs.*
pub use Report.*
