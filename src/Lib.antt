-- ===== src/Lib.antt =====
-- An FPGA accelerator for PostgreSQL's hash join: a kernel on the board, written in C++ for
-- high-level synthesis, and the C++ host library that sends it two sides of a join and reads the
-- matching pairs of tuple identifiers from it.
--
-- The host sends CONFIGURE, then the inner rows in frames (the build phase), then the outer rows
-- (the probe phase). The board acknowledges each phase with credit, sends RESULT frames with the
-- pairs that match, a TIMING frame, and a final STATUS frame. Algorithm A keeps the inner rows in
-- one hash table; algorithm B (Grace) first partitions both sides into DDR2 memory by a hash of
-- the key, and then joins partition by partition in the same table.
--
-- The files, with the code that each models:
--   * Types, Timing: src/hash_join_types.hpp, the protocol's constants, enumerations and payloads.
--   * Linear: src/hash_join_linear.hpp, class LinearHashTable: `reset`, `build`, `probe`. The block
--     RAM arrays are functions of the slot.
--     Linear/Probe, Linear/Build and Linear/Refine are about what a probe finds.
--   * Wire: the read and write helpers of src/hash_join_kernel.hpp. The input stream is a list of
--     polls of its FIFO, each a byte or nothing; the output stream is a list of transfers.
--   * Kernel: src/hash_join_kernel.cpp. Kernel/State is the state of the kernel (registers, block
--     RAMs, streams, the variables of one session) and the guarded read; Kernel/Configure the
--     CONFIGURE frame; Kernel/Build and Kernel/Probe the two phases of algorithm A, loop by loop;
--     Kernel/Cycles the timing summary; Kernel/Run one session (`run_session`) and the session
--     loop (`hash_join_kernel`).
--   * Grace, Grace/Join: src/hash_join_grace.hpp, class GraceHashEngine. The two partition passes
--     differ in five places, which the type `Side` tells apart.
--   * Host/Transport: host/include/transport.hpp, with what its users rely on (`Delivers`).
--   * Host/Serializer: host/src/tuple_serializer.cpp. Host/Decoder: host/src/result_decoder.cpp.
--   * Host/Client: host/src/fpga_client.cpp, class FpgaClient: the window of unacknowledged batches,
--     its credit, and `collect_until_ack`, whose clock is a number of rounds, after which the time is
--     over. Host/Metrics has its counters, Host/Client/Run the two loops of `run_hash_join`,
--     Host/Client/Session the run as a whole, with its clean-up. Host/Outcome and Host/Keeps are the
--     rules for calls that return, Host/Client/Rounds and Ends about the number of rounds.
--   * Host/Udp: host/src/udp_transport.cpp, class UdpTransport, over the calls of the system, a
--     parameter (`Socket`). Host/Udp/Receive, Send, Foreign and Drain are about its operations.
--   * Host/Software: host/demo/software_kernel.hpp, class SoftwareKernel. Host/Software/Answers,
--     Mute and Stalls are about its answers to the client.
--   * RoundTrip: what one side writes and the other side reads, for each frame.
--   * Grace/Layout, Grace/Place, Grace/Accepted: where the rows stand in DDR2 memory.
--     Grace/Contents, Grace/Partition: the rows of each partition, as a frame is partitioned.
--     Grace/Probe, Grace/Replay, Grace/Answer: the join of the partitions, from memory.
--   * Kernel/Watchdog: the guarded read of a host that is silent.
--   * Join: a whole session of algorithm A, from the frames of the host's serializer to the frames
--     that the kernel writes (Join/Output). Join/Build and Join/Probe follow the two phases row by
--     row, frame by frame; Join/Run puts them together, Join/Result and Join/Relation say what is
--     answered. Join/Fail is about inner rows that do not fit, Join/Overrun about frames that are
--     too long, and Join/Collect about the host that waits for an acknowledgement. Join/Client is
--     about a whole run of the host: Join/Sends follows what it has sent, Join/Heard what it hears.
--   * Adapter: pg/src/fpga_adapter.cpp, the bridge to the PostgreSQL extension: the names and the
--     endpoint that it parses, its test of the DDR2 layout and the rows with different keys;
--     Adapter/Prepare is the RESET before a UDP session,
--     and Adapter/Run a whole call, over any of the transports. Adapter/Dedup, Fits, Endpoint, Reports
--     and Simulated are about them.
--   * Base: shared names, Boolean tests, lists, machine words. Tests: runs on concrete inputs.
--
-- Conventions: a w-bit unsigned integer is a number with the wrap-around `% 2 ^ w` written out; a
-- signed key is the number of its bit pattern. A loop of the kernel has the bound that the source
-- gives it (`HT_MAX_ROWS + 2` build frames, 1,000,000 probe frames, `MAX_PROBE_DIST` steps). A read
-- from a stream that ends gives the outcome `blocked`; a write past the receive buffers, which the
-- source does not test, gives `faulted`. `recv_exact` has the number of bytes as its fuel, since a
-- round that makes no progress throws. The loops of `run_hash_join` have one round more than there
-- are rows, since each acknowledgement takes a batch out of the window or throws. A read of the UDP
-- transport has one round more than its socket's `backlog`, which bounds how often `select` still
-- answers anything but a timeout. A session loop of the hardware runs for ever; here it has a number
-- of sessions, and simulated in C it has one.
--
-- Not modelled: the times of the client's metrics, the PostgreSQL extension (C, over PostgreSQL's
-- own interfaces), the UART transport, which is a parameter, the logger, the Verilog around the
-- kernel, and HLS pragmas, which do not change what the code computes.
mod Base
pub mod Types
pub mod Linear
pub mod Timing
pub mod Wire
pub mod Kernel
pub mod Grace
pub mod Host
pub mod RoundTrip
pub mod Join
pub mod Adapter
mod Tests
