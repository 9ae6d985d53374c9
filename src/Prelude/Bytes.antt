-- ===== src/Prelude/Bytes.antt =====
-- Bytes as numbers, C strings in buffers, and the conversions of printf and scanf that the
-- programs use (`%s`, `%d`, literal text).
mod Decimal
mod Stream
mod Fields
mod Buffer
unfoldable pub use Decimal.*
unfoldable pub use Stream.*
pub use Fields.*
pub use Buffer.*
