-- ===== src/Api.antt =====
-- The public functions of src/shmem.c. A family of functions that differ in their C types is one
-- definition here, which takes the suffix of the name; a parameter or a result that C keeps on the
-- stack is the address of its place there.
pub mod Point
pub mod Group
pub mod Query
pub mod Pairs
pub mod Reduce
pub mod Barrier
pub mod Epoch
pub mod Adds
pub mod Heap
pub mod Together
pub mod Waits
pub mod Reduced
pub mod Gathered
