-- ===== src/Mpi/Library.antt =====
-- The MPI library as a parameter: what the code relies on, as the MPI-3 standard documents it. The
-- effect of an action is its effect on memory once the operations issued so far have completed.
-- `eager` is one such library, which shows that the laws can be met.
mod Defs
mod Eager
pub use Defs.{Mpi}
unfoldable pub use Defs.{run, add_bytes, bytes_eq}
pub use Eager.{eager}
