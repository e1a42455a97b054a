-- ===== src/Net.antt =====
-- What the program uses of `std::net` and `std::str`: texts, addresses, and their parsing and
-- printing. The text form of an IPv6 address is a parameter.
mod Text
mod Addr
pub mod Laws
pub mod Socket
unfoldable pub use Text.*
unfoldable pub use Addr.*
