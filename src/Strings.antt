-- ===== src/Strings.antt =====
-- The functions of Go's `strings`, `strconv`, `encoding/hex` and `net` that the program calls, over
-- ASCII text. White space and letter case are those of ASCII.
mod Edges
mod Search
mod Split
mod Decimal
pub mod HostPort
unfoldable pub use Edges.*
unfoldable pub use Search.*
unfoldable pub use Split.*
unfoldable pub use Decimal.*
unfoldable pub use HostPort.*
use ssl_certificate_verifier.Base.{Bool, true, codes, str_eq, any, byte_at, slice}

-- Named on an `unfolding` line, this opens all of these functions.
unfoldable pub text_runs : Bool
unfolding codes str_eq any byte_at slice to_lower to_upper trim_left trim_right trim_both trim_space
    trim has_prefix has_suffix trim_prefix contains count_byte index_byte last_index_byte equal_fold
    split join fields_from fields replace_byte digits_onto itoa itoa_ℤ value_from value atoi
    quote_onto quote split_host_port join_host_port
text_runs = true
