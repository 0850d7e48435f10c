-- ===== src/Base/Bits.antt =====
-- Laws of `&`, `|` and `^` at variables.
mod Digits
mod Fields
mod Xor
mod Single
pub use Fields.*
pub use Xor.*
pub use Single.*
