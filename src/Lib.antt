-- ===== src/Lib.antt =====
-- A model of OSHMPI, an implementation of OpenSHMEM on MPI-3, and theorems about it.
--
-- A job is a number of processing elements (PEs), each a process. A PE's symmetric objects lie in two
-- areas, the symmetric heap and the static data, which stand at the same offsets at every PE. Each
-- area is an MPI window. A transfer or an atomic operation looks up which window the address of the
-- object lies in, and then accesses the PE's copy: by a memcpy or a compiler builtin if all PEs share
-- a node and the object is in the heap, else by an MPI call on the window. A collective finds or makes
-- a communicator of its PEs and makes its MPI call on it, a collect of several sizes two. A lock is a queue in a third window.
--
-- The files, and the code that they model:
--   Mpi, Mpi/*        what the code uses of MPI. MPI is not part of the repository: the record `Mpi` of
--                     Mpi/Library is a parameter, with the laws that the MPI-3 standard documents;
--                     `eager` is one such library. Memory is a function from addresses to bytes. `run` gives
--                     an operation its effect when it is issued.
--   Mpi/Network       a process and the library with writes on their way: a put or an accumulate is
--                     pending until it is delivered, at any later time and in any order but that of
--                     accumulates to one place; a flush waits. `Steps` is the relation of what they do.
--   Mpi/Fabric        the same for all processes of a job, on the memory of all, interleaved
--   Contiguous        src/type_contiguous_x.h: MPIX_Type_contiguous_x
--   Globals           src/shmem-internals.h: the globals; build options are fields as well
--   Window            src/shmem-internals.c: oshmpi_window_offset
--   Rma               src/shmem-internals.c: oshmpi_put, oshmpi_get
--   Strided           src/shmem-internals.c: oshmpi_put_strided, oshmpi_get_strided, and the copies of
--                     them in src/shmemx-armci-strided.c
--   Atomic            src/shmem-internals.c: oshmpi_swap, oshmpi_cswap, oshmpi_add, oshmpi_fadd
--   Lock              src/oshmpi-mcs-lock.c: a step relation of all PEs. One step is one access to a
--                     window, one message or one probe, and the steps of PEs interleave in any order.
--                     Lock/Fifo keeps, beside the state, who has come to the lock and who has got it.
--   Comm              src/shmem-internals.c: oshmpi_acquire_comm, oshmpi_release_comm,
--                     oshmpi_translate_root and the cache. MPI_Group_translate_ranks is a parameter.
--   Coll              src/shmem-internals.c: oshmpi_coll. Coll/Effect is what MPI documents of the calls
--                     that PEs make together.
--   Sync              src/shmem-internals.c: oshmpi_remote_sync, oshmpi_remote_sync_pe,
--                     oshmpi_local_sync; src/shmem.c: shmem_quiet, shmem_fence; and
--                     src/shmemx-counting-put.c. Sync/Puts, Sync/Delivery, Sync/Fence, Sync/Overtaken,
--                     Sync/RoundTrip, Sync/Message and Sync/Counted are about writes on their way, with what one put and one addition ask
--                     for in Rma/Pending and Atomic/Pending, and additions of several PEs in
--                     Atomic/Concurrent.
--   Wait              src/shmem-wait.h: COMP, SHMEM_WAIT, SHMEM_WAIT_UNTIL;
--                     src/shmemx-counting-put.c: shmemx_ct_wait
--   Api               src/shmem.c: the typed functions. Functions that differ in their C types are one
--                     definition that takes the suffix of the name. Api/Heap has the heap calls, over an
--                     allocator that is a parameter and may get memory outside the heap; Api/Waits the typed waits, over the memories that
--                     their turns find, and puts with the wait for them; Api/Epoch the puts of all
--                     PEs with shmem_barrier_all, and Api/Adds their additions to one object.
--   Startup           src/shmem-internals.c: oshmpi_initialize, oshmpi_finalize, and in Startup/Setup the
--                     globals that initialization sets; src/shmem.c: start_pes, shmem_init,
--                     shmem_finalize, shmem_global_exit, in Startup/Calls
--   Tests             the theorems at concrete inputs
--
-- A function that asks MPI for something is the list of its actions, with an outcome: it returns, it
-- aborts or an assert fails. Numbers are natural numbers; where C's types wrap around, the model has
-- the remainder, and a theorem states the bounds under which nothing wraps. A wait is a loop on
-- fuel: any fuel above the number of the first turn that satisfies the comparison is enough.
--
-- A theorem that speaks of `run` or of the memory after a call gives each operation its effect when it is
-- issued, and holds of the state behind the completion of what was issued; one that speaks of `Steps` or
-- `Turns` holds of every order of delivery, for transfers through MPI, since those through shared memory
-- are never on their way.
--
-- Not modelled: gets, swaps and strided transfers on their way, whose theorems are of the first kind;
-- dlmalloc, a copy of Doug Lea's allocator that shmalloc and its kin call; output and
-- debugging code; the Apple and MPICH variants of a build; the arithmetic of a reduction, which is
-- MPI's; shmem_wtime and shmem_nodename, which pass on what MPI gives; and the functions of the cache,
-- which do nothing.
pub mod Prelude
pub mod Mpi
pub mod Contiguous
pub mod Globals
pub mod Window
pub mod Rma
pub mod Strided
pub mod Atomic
pub mod Lock
pub mod Comm
pub mod Coll
pub mod Sync
pub mod Wait
pub mod Api
pub mod Startup
mod Tests
