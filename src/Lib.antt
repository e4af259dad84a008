-- ===== src/Lib.antt =====
-- HUX: a verification library of the transport engine.
--
-- An engine (src/core/engine_impl.*) registers application memory with its transports, exports
-- descriptors of it, adds peers from the metadata they publish, and turns reads and writes into
-- sub-operations over the lanes of a peer. A request (src/core/request_impl.*) collects the
-- completions of its sub-operations and says, in stages, what a caller may rely on. Transports
-- (src/transport) carry the sub-operations under a congestion controller (src/transport/cc), and
-- send control messages (src/control) through an outbox (src/transport/control_outbox.*).
--
-- Which file models which part:
--   Types            include/hux/status.h, types.h, request.h: enumerations and small structs
--   Control          src/control: identities, message headers and bodies, and their bytes
--   Request          src/core/request_impl.*: one method, one function from request to request;
--                    Request/Steps are histories of them, Request/Endings who may rely on what,
--                    Request/Counting who ends a request
--   Outbox           src/transport/control_outbox.*: the queue, `post` and `flush`; what the
--                    socket answers is a list given from outside
--   Cc               src/transport/cc/controller.*: the three controllers; Cc/Budget are
--                    histories of the fixed window
--   Region           src/core/region_impl.*: descriptors, registrations, handles and views
--   Engine           src/core/engine_impl.*: `build_subops` (Engine/Chunks; its proofs are
--                    Engine/Carries and Engine/Transfer), `post_ops` and the ways a request is
--                    given up (Engine/Post; Engine/Turns for one turn, Engine/Lane for a lane's
--                    life; Engine/Cases what a turn can be), `part_done`, the loop over completions
--                    in `progress` and `reap_departed_peers`, for one request, lock by lock
--                    (Engine/Ending; Engine/Once, Engine/Threads and Engine/Lifetime for threads in
--                    any order, Engine/Alone for one), the bounded queues (Engine/Queues,
--                    Engine/Fifo), the metadata envelope (Engine/Metadata, Engine/Dialling), the
--                    choice of transports in `add_peer` (Engine/Peering, Engine/Choosing) and
--                    `import_region` (Engine/Importing); the scheduling passes over all that waits, `drain_pending`
--                    and `dependency_state` (Engine/Scheduling; Engine/Draining that they finish,
--                    Engine/Waiting that they wait); `submit_vector` (Engine/Submitting;
--                    Engine/Admitted and Engine/Counted for what it refuses and admits);
--                    registration, its cache and its release (Engine/Registering; Engine/Evicting
--                    for the cache, Engine/Handed, Engine/Released and Engine/Registered for every
--                    order of calls, Engine/Served for one); the notice of a region taken back
--                    (Engine/Invalidating); ready handoffs and arrivals (Engine/Handoffs);
--                    notifications and their answers (Engine/Notifying; Engine/Settled,
--                    Engine/Settling and Engine/Notified for every order of them, Engine/Exchange
--                    for both ends). Engine/Submitting calls Engine/Chunks and Engine/Scheduling,
--                    and that calls Engine/Post
--   Local            src/transport/local: the registry of one process, and the transport
--   Rdma             src/transport/rdma/rdma_provider.cpp. Its control channel: `send_control`,
--                    `broadcast_control` and `poll_control` (Rdma/Control; Rdma/Framing for the
--                    frames, Rdma/Sending and Rdma/Delivery for both ends of a connection over
--                    Outbox). Its queue pairs: the choice of one (Rdma/Queues), `submit`
--                    (Rdma/Submit; Rdma/Anchors for what asks for a completion) and what `poll`
--                    does with a completion (Rdma/Retire; Rdma/Numbered, Rdma/Outstanding,
--                    Rdma/Planned, Rdma/Taken and Rdma/Accounts for any batches and completions)
--   Config           include/hux/config.h and `EngineConfig::validate` of src/core/strings.cpp
--   Base             lists, tests and bits that the others share
--
-- How code corresponds to definitions. A method is a function from the object's state to the new
-- state and its answer; a lock makes it one step, so an interleaving is a list of steps. Where a
-- method takes several locks, it is one step all the same, but in Engine/Ending, where other threads
-- come between, and where a file says that it is in two parts. A call
-- with an out parameter returns `Result`. Bytes are numbers below 256, buffers lists of them,
-- addresses numbers, and a uint32 or uint64 that the code adds to is reduced modulo its width where
-- the sum is written, the next id of a region, a request, a notification and a local key among them,
-- but for the counters of the statistics and the sequence numbers of queue pairs, which are plain
-- numbers; `used - min(used, bytes)` and the like cannot pass zero. Null
-- checks of out parameters are left out. A double is an element of the record `Doubles` in
-- Cc/Timely, of which the proofs use only that nothing is less than itself, and that of two numbers
-- that are not NaN one is at most the other.
--
-- Fuel. The chunk loop of `build_subops` runs on the length of the segment, which is enough because
-- each turn moves on by at least one byte, and the loop that shortens the cache in
-- `cache_registration` on the length of the cache, since each turn takes an entry out. Every other
-- loop follows a list or a count.
--
-- What is given from outside. What a transport, a device event or a socket answers is an argument:
-- a function or a list. A registration is told apart by a number, and a reference count is the
-- number of places that hold it. Device events are named by numbers, and a scheduling pass asks
-- each once, so that they answer the same throughout a pass.
--
-- Not modelled: how the RDMA transport opens adapters and makes and verifies connections, and its
-- receives; the IPC and UCX transports and the device backends, which are calls into vendor
-- libraries; the peer table, `progress_loop` and the waiting of `close` in
-- src/core/engine_impl.cpp; topology; printing, threads, bindings, applications, benchmarks and
-- tools.
pub mod Base
pub mod Types
pub mod Control
pub mod Request
pub mod Outbox
pub mod Cc
pub mod Region
pub mod Engine
pub mod Local
pub mod Rdma
pub mod Config
