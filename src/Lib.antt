-- ===== src/Lib.antt =====
-- libdsys, a library for distributed programs that exchange data over branching channels. Each
-- process has a computation thread, which creates channels and puts data into them or gets data from
-- them, and for each other process a server thread, which sends the data of a channel to that process
-- on request. A channel's data wait in a buffer, which the two kinds of threads share. Which processes
-- a channel leads to is said by a process list.
--
-- Files and the code they model:
-- - Prelude: tests on numbers, lists as C arrays with native indices, size_t modulo 2^64, integers.
-- - Queue/Wire: what goes to a socket; Queue/Memory: slices of a block; Queue/Fifo: bounded queues.
-- - Queue/Mc121 (libdsys/queue.c): the one-to-one buffer with memory copy, a ring of bytes.
--   `putq_mc121` and `sendq_mc121` are `__bc_putq_mc121` and `__bc_sendq_mc121`; `mc121_put` and
--   `mc121_send` are passes of the loops of `__bc_mc121_put` and `__bc_mc121_send`. Below it: Inv (the
--   invariant), Contents (the bytes in order), Fields, Refine, Stream (interleavings) and Wait
--   (who can go on).
-- - Queue/Nmc12m (libdsys/queue.c): the one-to-many buffer without memory copy; `put_enter` and
--   `put_check` are the two parts of `__bc_internal_nmc12m_put`. Nmc12m/System interleaves a producer
--   and its consumers; below it are the invariant, its preservation by each part, Deliver and Single.
-- - Queue/Farmn (libdsys/queue.c): the fan-out buffer; Farmn/Share relates it to Queue/Nmc12m.
-- - Plist (libdsys/plist.c): process lists; below it a file for each operation on sets, and Parts and
--   Divide for the division, Optional for the optional lists and Exclude for the creation with a negative
--   count.
-- - Queue/Mc12m (libdsys/queue.c, libdsys/replicate.c, libdsys/spread.c): the one-to-many buffer with
--   memory copy; Tags (a table by tag) and Scatter (what one put leaves in all buffers).
-- - Ltab (libdsys/ltab.c): the table of links; below it Tags (insertion and search) and Destroy (removal).
-- - Channel (libdsys/iface.c, pipe.c, replicate.c, farm.c, spread.c and dtype.c of libdsys): creation and
--   destruction of channels and of data types; Channel/Count counts the links and Channel/Shutdown
--   follows them through the table of Ltab.
-- - Branch (libdsys/branch.c): the two ends of a channel and the guards of put, commit and get.
-- - Net (libdsys/fdutils.c, libdsys/service.c, libdsys/sockets.h): transfers in pieces. `write_data` and
--   `read_data` are `__bc_write_data` and `__bc_read_data`; Chunks relates them, Requests has the
--   requests and Index the numbering of the sockets. The sizes that the calls of `send` and `recv`
--   return are an argument, so that a list that is too short is a call that has not returned.
-- - Variable (libdsys/variable.c): operations on one value, by its type.
-- - Reduce (libdsys/reduce.c, libdsys/collect.c, libdsys/collect_any.c): receiving from several
--   producers; Rows (the loops, unit by unit), Sums, Picks, Extremes, Store and
--   Poll.
-- - Iskel (libdsys/iskel.c, libdsys/iskel.h): skeletons. `pipe_create`, `all2all_create` and
--   `farm_create` are `iskel_pipe_create`, `iskel_all2all_create` and `iskel_farm_create`; they use
--   Plist and Plist/Diff for the lists, and give the arguments of the calls that Branch models. Below it:
--   Pipeline and Hub (the definitions), Stages (pipelines), Root, Star and Farming.
-- - Ltab/Sinks, Ltab/Srcs, Ltab/Meet (libdsys/branch.c): the sinks and the sources that two processes create
--   in turn, `open_sinks` and `open_srcs`, and which channel a source then reads from.
-- - Server (libdsys/threads.c): `serve` is one round of the loop of `__bc_service_thread`, on the list of
--   links to the process that the thread serves; Server/Cache relates it to Ltab and Ltab/Destroy.
-- - Session (libdsys/pipe.c): a channel of the role PIPE from the put to the read, `p_pipe`, `s_pipe` and
--   `r_pipe` as steps of a producer, a server thread and a consumer; Session/Stream follows the bytes.
-- - Boot (libdsys/base.c, libdsys/infmpi.c): `bc_init` and `bc_final`, with the blocks of memory that each part
--   holds; Boot/Names is about the names of the processes, Boot/Balance about what is left over.
-- - Sockets (libdsys/sockets.c): the connections that all processes make with each other when the library
--   starts, as steps of a system of processes; Sockets/Programs is about what one process has left to
--   do, Sockets/Pending about what waits at the listeners, Sockets/Progress about how it goes on and
--   Sockets/Table about what is stored.
-- - Queue/Nmc121 (libdsys/queue.c): the one-to-one buffer without memory copy; Nmc121/Full fills it.
-- - Bits (libdsys/bits.c): the reversal of the bits of a number.
--
-- A loop over an array is structural recursion on the list or the index that it goes through; no
-- definition has fuel. A loop that waits on a condition variable is one pass of it, and the passes of
-- all threads are interleaved as a list of events, each pass being atomic because it runs under the
-- lock of the buffer. What malloc returns is an argument, with whatever the block holds.
--
-- Not modelled: the calls of the operating system that create threads and set the options of sockets,
-- and the exchange of names by MPI; the arithmetic of the floating types and what a signed sum or
-- product gives that leaves its type, which are parameters of Variable; the reduction by an operator of the user's, which frees memory at a wrong address;
-- libdsys/unique_shared.c, which is not built; timing and printing; the examples and the measurements.
pub mod Prelude
pub mod Bits
pub mod Boot
pub mod Branch
pub mod Channel
pub mod Iskel
pub mod Ltab
pub mod Net
pub mod Plist
pub mod Queue
pub mod Reduce
pub mod Server
pub mod Session
pub mod Sockets
pub mod Variable
