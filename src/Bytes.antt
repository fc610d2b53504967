-- ===== src/Bytes.antt =====
-- Byte arrays as the client uses them: `Uint8Array.set`, the setters and getters of `DataView`, and
-- the `write…`/`read…` methods of Node's `Buffer`. A byte array is a list of numbers below 256.
mod Laws
mod Cells
pub mod Layout
pub mod Writes
pub use Laws.*
unfoldable pub use Cells.*
