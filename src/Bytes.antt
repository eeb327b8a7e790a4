-- ===== src/Bytes.antt =====
-- Arrays of bytes: `memmove` in and out, and the little-endian numbers that it moves.
mod Defs
mod Laws
mod Slices
unfoldable pub use Defs.*
pub use Laws.*
pub use Slices.*
