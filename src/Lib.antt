-- ===== src/Lib.antt =====
-- A model of my_l3fwd, a layer-3 forwarding server that runs on a simulated network interface (ZSIM).
--
-- The program. l3fwd/main.c reads the options, makes one shared RPC context and starts the threads.
-- Each thread runs `run_worker` of l3fwd/worker.c: it registers a buffer and a queue pair, then
-- polls for requests, answers each one, and gives its receive slot back, until the simulator says
-- that the clients have finished. The calls go through rpc_shm/rpc.cpp to the routines of
-- libzsim/zsim_nic_defines.cpp, which post entries to a work queue and read entries of a completion
-- queue; both are rings of 128 slots with a sense bit that flips on each round, shared with the
-- simulated hardware.
--
-- The files.
--   Prelude: arrays as lists, words as native numbers cut off by `%`, exclusive or, Boolean
--     tests.
--   Nic: libzsim/zsim_nic_defines. Nic.antt has the queues, `register_buffer`,
--     `create_wq_entry`, `rmc_hw_send` and `rmc_hw_recv`; Nic/Check `rmc_check_cq`; Nic/Setup the
--     `kal_reg_*` calls. Nic/Rounds relates a slot and a sense bit to an unbounded position,
--     Nic/Post and Nic/Pending are about posting and polling, Nic/Ends about the end of the
--     polling loop.
--   Cbuf: `CircularReceiveBuffer` of rpc_shm/cbuf.cpp, a ring of entries with a copy on the
--     sender's side and one on the receiver's. Cbuf/Modulus has the remainders of counters,
--     Cbuf/Runs is about the sense bits of a sender, Cbuf/Room about its head, tail and flag,
--     Cbuf/Avail about the free entries that it counts, Cbuf/Protocol about runs of messages and
--     entries given back, and Cbuf/Receiver about the entries at which the two sides meet.
--   Rpc: the calls of rpc_shm/rpc.cpp that a worker makes: the context, the registrations,
--     `sendToNode_zsim`, `receiveRPCRequest_zsim_l3fwd`, `do_Recv_zsim`. Rpc/Slots is about the
--     slots of the local buffer. Rpc/Buffers has the circular buffers of a context, from
--     `setupCircularBuffers` to `getCBufIdx`; Rpc/Polls is about where a receiver polls,
--     Rpc/Layout about the numbers of the buffers. Rpc/Header has `createRPCStruct`,
--     `packPayload` and `unpackBufferToRPCLayer`; Rpc/Header/Bytes is about numbers as bytes,
--     Rpc/Header/Roundtrip about a message packed and unpacked. Rpc/Stats is the container of
--     statistics of rpc_shm/statContainer.tpp with its files.
--   L3fwd: `run_worker`, its table of addresses and its loop. L3fwd/Main is `main` up to its
--     threads, L3fwd/Serve is about one request, L3fwd/Slots about the slots that posts fill,
--     L3fwd/Loop and L3fwd/Worker about the whole of one worker. L3fwd/Threads has `main` and all
--     its workers over the context that they share, as a step relation in which they act in any
--     order: `run_worker` is cut at its registrations, at the barrier and at each round of its
--     loop. L3fwd/Threads/Acts is about what one thread does, Good, Safe and Creates about all of
--     them together, Steps and Progress about runs, Missing about a `pthread_create` that fails,
--     Program about the whole. L3fwd/Routes is the array of IPv6 routes of l3fwd/em_l3f.c, with
--     their hash function.
--   Hash: the cuckoo hash table of rte_lib/rte_cuckoo_hash.c. Hash.antt has the table, the
--     lock, the key slots and `search_and_update`; Hash/Insert `rte_hash_cuckoo_insert_mw`;
--     Hash/Space the breadth-first displacement; Hash/Add `rte_hash_add_key`. Hash/Index is about
--     bucket indices, Hash/Search and Hash/Lookup about what a search finds. Hash/Entries and
--     Hash/Moves are about the entries and their moves, Hash/Gives, Hash/Locks and Hash/Safe
--     about what each step keeps (the lock, the chains, the entries), and Hash/Calls, Hash/Fill,
--     Hash/MakeSpace, Hash/LookedUp, Hash/Extend, Hash/Attempts and Hash/Release show it of the
--     routines, from the insertion into one bucket up to `__rte_hash_add_key_with_hash`.
--     Hash/Found, Hash/Made and Hash/Answer say what the answer of a search, of one attempt and
--     of the attempts together means, Hash/Slots is about the slot of a new key, Hash/Hits,
--     Hash/Stored and Hash/Holds about a key that is in the table, and Hash/Distinct about
--     several keys. Hash/Runs has runs of insertions, which Hash/Refines compares with an
--     association list. Hash/Create has `rte_hash_create` up to the lock that it takes, and the
--     fields and the contents that the code after the lock sets; Hash/Create/Bitmask is about
--     both, and Hash/Create/Locked has the requests for memory and the error paths after the
--     lock. The ring and the lock are those of DPDK: the ring is a record of operations, the
--     calls of the lock are recorded. A chain of buckets is followed with fuel; the breadth-first
--     search has 125 rounds, and its queue of 1000 nodes is full after 124.
--
-- State. A `Machine` is what one worker and the hardware share: the two queues, the flag
-- `client_done`, the magic instructions executed and the stores to application memory. A pointer is
-- a native number, a `uint32_t` a number below 2 ^ 32. A call that can throw, fail an assertion or
-- poll for ever has an `Outcome`.
--
-- Parameters. The hardware is a function `hw` from a moment and a machine to a machine; it acts
-- before each round of the outer polling loop and before each attempt to send. What an uninitialised
-- variable holds is an argument (`Junk`). The allocator is an argument of the set-up calls (`Grants` in
-- `main`), and whether `pthread_create` succeeds is an argument for each thread. The barrier, the
-- creation and the join of threads are as POSIX has them.
--
-- The theorems about whole workers assume of the hardware what `Simulator` of L3fwd/Serve says: it may
-- complete any entries of the work queue (`valid` is unset when an entry is completed), all requests
-- are in the completion queue from the start, at most 128, and `client_done` is set when they have
-- been read. Since the hardware need not complete any entry, the work queue must have room for the
-- two posts of each request and one more: a worker with at most 63 requests.
--
-- Fuel. The polling loops and the worker's loop run on fuel. The inner loop of `rmc_check_cq` has
-- 129, which is enough since 128 slots can have the current sense at most once each. A worker's loop
-- needs one round more than it has requests.
--
-- Not modelled. Printing, processor affinity, the builds other than ZSIM, the code under `#if 0`,
-- freed memory, and the copies of DPDK under rte_lib/include and rte_lib/ring. A step of a thread is
-- one registration, the passage of the barrier or a whole round of its loop: what the threads share
-- and write, their places in the vectors of the context and two globals, is written by the
-- registrations alone, before the barrier.
pub mod Prelude
pub mod Nic
pub mod Cbuf
pub mod Rpc
pub mod L3fwd
pub mod Hash
