-- ===== src/Lib.antt =====
-- NTLinux: NT kernel services in Linux user space, and the bridge to driver cells.
--
-- A Windows program's NT calls reach libntabi (ntabi/lib/libntabi.c), which writes a request into a
-- slot of a shared memory segment, puts the slot's number on a ring and blocks on the slot's
-- semaphore. The daemon ntd (ntd/ntd.c) drains the ring, performs each request on its table of
-- objects, and posts the slot when the request has an answer: at once, or, for a wait, when another
-- request or a sweep ends it. Driver cells talk to the host by the rings of
-- driver/ntbridge/protocol/ntbridge_protocol.h: the drivers in the cell are the bus driver, which
-- acknowledges devices, and the USB and network drivers, which carry transfers and frames. ntloader
-- starts a Windows program.
--
-- Files:
--   Common: numbers, integers, lists, finite sums and maps that the others share.
--   Ntabi: ntabi/protocol/ntabi_protocol.h, the requests, responses and slots.
--   Ntd/State, Complete, Handles, Objects, Timeouts, Waiters, Multiwaits, Sync, Waits, Close, Ports,
--     Tasks, Dispatch, Start: ntd/ntd.c from top to bottom. Each C function is a definition of the
--     same name; a loop or a branch of it that has a definition of its own says so. A handler takes
--     the request, the slot's index and the client's pid, and turns one state into the next.
--   Ntd/Answers: how many answers each handler gives, handler by handler, and the theorems on runs.
--   Ntd/Counts: what handlers do to the handle table, the list of objects and the reference counts,
--     handler by handler; Counts/References its theorem on runs.
--   Ntd/Calm: whether anybody waits alone for an object that is available, in signals, polls, waits
--     and the making of objects; Calm/Runs its theorem on runs.
--   Ntd/Isolation, Order, Delivery, Selection, Deadlines, Limits: what else handlers keep and do.
--   Client/Submit, Calls: ntabi/lib/libntabi.c, the two ends of `submit`, and the public calls; Client/
--     Queue, Served and Names are about these together with the daemon.
--   Ntbridge/Ring: the ring of ntbridge_protocol.h, and Ring/Refine its refinement to a queue.
--   Ntbridge/Host: driver/ntbridge/host/ntbridge-host.c, the host's loops over the rings, and Host/
--     Daemon its main loop; Host/Replies and Turns are about the former.
--   Ntbridge/Messages, Region, Ring/Loops: the messages and the header of ntbridge_protocol.h, and the
--     loops over a ring; Ring/Fill is about these loops.
--   Ntbridge/Guest: driver/ntbridge/reactos/ntbridge_pnp.c, the timer's routine, and Guest/Pnp the
--     dispatch routines; Guest/Table, Answers, Arrival and Session are about them, the last two
--     together with the host.
--   Wdm: what the drivers answer to a request. Vsdev: driver/vsdev/vsdev.c, the virtual serial driver;
--     Vsdev/Loopback and Lifetime its theorems.
--   Ntusb: driver/usb/reactos/ntusb.c, its transfers, Ntusb/Control its device controls,
--     and Ntusb/Pnp the life of its devices;
--     Ntusb/Transfers, Refusals, Echo and Life its theorems.
--   Ntnet: driver/net/reactos/ntnet.c, the network adapter, and Ntnet/Oids its identifiers; Ntnet/
--     Sending, Receiving and Oids/Retry its theorems.
--   Loader: ntloader/ntloader.c, the image and the overrides that it reads, Loader/Config its
--     configuration, Paths the hash and the directories, and Main its `main`; Loader/Lines, Overrides,
--     Images, Hash, Dirs, Wine and Starts its theorems.
--   Ntexports: tooling/compat-db/ntexports/ntexports.c, its list and its escapes, Ntexports/Scan the
--     export table of a file, Output what it writes of one and Main the program; Ntexports/Escapes,
--     Exports and Report its theorems.
--   Tests: runs of the definitions and the theorems at concrete inputs.
--
-- The state `Ntd` of the daemon is its globals: the handle table, the list of objects, the slots, the
-- counter of section names. An object is an id, its address, with a map from ids to contents; ids are
-- never used again, so a pointer that outlives its object reads what the object last held. Multi-waits
-- have a map of their own, and a freed one keeps its fields. Links between waiters are lists.
-- `Env` is the operating system: the clock, which may read anew at each call, pidfd_open, poll, /proc,
-- shm_open and ftruncate, with no assumption on what they answer. A run is any sequence of clients
-- that fill slots, requests served and sweeps, from the state that main starts with.
--
-- The host's `while (try_pop)` loops run on one round of fuel more than the ring holds elements, which
-- the last round finds empty; what a guest pushes meanwhile is left to the next turn.
--
-- Integers: an `int` that the code adds to wraps at 32 bits; the counters of the rings wrap at 64;
-- ids, handles and reference counts are unbounded, where C's int32_t overflows after 2^31 handles of
-- one process. In ntd every loop is structural, but for
-- `while (satisfy_one_waiter(o))`, which takes one round of fuel more than there are waiters: each
-- round that goes on removes one.
--
-- Addresses of objects and multi-waits are numbers that are never given out twice, where calloc may
-- return memory that was freed. What is freed keeps its fields: a multi-wait that an object's waiters
-- name twice is read, and freed, a second time when the object goes.
--
-- In a run, clients may fill any slot at any time and the daemon may serve any slot. What a client's
-- `submit` and the daemon's inner loop do on the submission ring stands apart, on the segment alone.
-- A call of libntabi takes its `submit` as a parameter.
--
-- The loop of the loader over the lines of a file runs on as much fuel as the file has bytes, and each
-- round reads one at least. The drivers' `while (try_pop)` loops run as the host's. The kernel's and
-- NDIS's answers are arguments of the definitions that use them; a packet has the total length of its
-- buffers, as NDIS documents.
--
-- The system calls of the loader that change something are logged in order; what they answer is a
-- parameter. The structures of winnt.h that ntexports reads are parameters too, as functions of an
-- address, and memory behind the end of a file is read like the rest; the totals that it counts are
-- unbounded.
--
-- Not modelled: mmap, signals and the blocking of semaphores, the status strings and the messages to a
-- terminal, which have no logic of the program's own; ntprobe, the probe drivers and the GPU fallback,
-- which pass the answers of the system on.
pub mod Common
pub mod Ntabi
pub mod Ntd
pub mod Client
pub mod Ntbridge
pub mod Wdm
pub mod Vsdev
pub mod Ntusb
pub mod Loader
pub mod Ntexports
pub mod Ntnet
pub mod Tests
