-- ===== src/Mpi/Memory.antt =====
-- Bytes in memory: a location holds a byte, and a list of displacements from an address names the
-- bytes of a buffer in order.
mod Defs
mod Span
mod Tile
mod Strided
mod Outside
pub use Span.*
pub use Tile.*
pub use Strided.*
pub use Outside.*
unfoldable pub use Defs.{Memory, span, shift, gather, write, scatter, tile}
