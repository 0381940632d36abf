-- ===== src/Ton.antt =====
-- What the proxy takes from the packages that it imports: the values of the liteserver protocol
-- (github.com/xssnick/tonutils-go/ton), as plain data, and the operations of tonutils-go and of
-- hashicorp/golang-lru, as parameters.
mod Wire
mod Library
mod Arc
pub mod Sample
pub use Wire.*
pub use Library.*
pub use Arc.*
