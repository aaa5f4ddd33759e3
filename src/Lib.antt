-- ===== src/Lib.antt =====
-- The event queues of custom-queue-latency with the programs that measure them, and the B+ tree
-- of index_file.
--
-- The program. `custom-queue-latency/src` has four bounded queues behind the interface
-- `IEventQueue` (`queues.hpp`, `queues.cpp`): a deque under one mutex, a linked list with a
-- mutex at each end, a ring for many producers and consumers, and a ring for one of each.
-- `pipeline.cpp` builds topologies of ingress threads, a dispatcher and workers from them and
-- reports throughput, latencies and the queues' statistics; `harness.cpp` measures one queue
-- with producers and one consumer. `pipeline_main.cpp` and `main.cpp` read the command lines of
-- the two programs. `index_file` is a B+ tree in a file of blocks (`BPlusTree.cpp`, with its
-- types in `Types.h`), and a program that creates it, inserts entries, searches and prints it
-- (`b+tree.cpp`, with the parsers of `InputParser.cpp`).
--
-- Files, each under the part of the program that it models:
-- - Base: numbers, lists, results; `Base/Int` the signed integers, `Base/Double` the floating
--   point numbers as a parameter of what uses them, `Base/Numbers` `std::stoi` and
--   `std::stoull` as the C++ standard gives them.
-- - Queue: the types of `queues.hpp`, the statistics, `updateMaxDepth`,
--   `SpinYieldWaiter::pause`, `resolveWaitStrategy`, `snapshotQueueStats`. Queue/Names: the
--   parsing and printing of names. Queue/Waiter, Queue/Statistics: what these helpers come to.
--   Queue/Factory: `makeQueue`.
-- - Queue/Concurrent: `IEventQueue` as a record of step code, the interleavings of any number
--   of threads over it, and `IsFifo`, the contract that the queues for many threads fill; the
--   ring for two threads has its own interleavings in Queue/Spsc. Queue/Ring: the cells of a
--   ring between two indexes. Queue/Schedule: runs of a given schedule, for tests.
-- - Queue/GlobalLock, Queue/SplitLock, Queue/Mpmc, Queue/Spsc: the four classes, constructor,
--   `push`, `pop` and `close`. Their `Invariant` modules hold the invariant and that each step
--   keeps it; `Fifo`, `Accounting`, `Solo` and `Bounds` what follows. Queue/SplitLock/Chain,
--   Ownership and Steps: the linked nodes, who may touch which, and that each step keeps this;
--   Queue/SplitLock/Destroy: `destroyNodes`.
-- - Pipeline: the types of `pipeline.hpp` and `pipeline.cpp`. Pipeline/Names: the topology's
--   names. Pipeline/Config: `validatePipelineConfig`. Pipeline/SetUp: the queues that the three
--   `run...Pipeline` functions make. Pipeline/Stats: `mergeQueueStats`, `nextRandom`,
--   `simulateWork`, `isMeasuredEvent`. Pipeline/Result: `percentileLatencyUs` and
--   `finalizeResult`.
-- - Pipeline/Channel: a queue as the pipeline's threads see it. Pipeline/Run: the state of a
--   run and where its threads stand; its IngressLoop, WorkerLoop, DispatcherLoop and Schedule
--   are the threads' code and runs in any order, Topologies `runSharedQueuePipeline`,
--   `runDispatchLocalSpscPipeline`, `runDirectLocalSpscPipeline` and `runPipelineScenario`.
--   Pipeline/Run/Rule: the rule for invariants of runs. Joined, Balance, Drained and Routes:
--   the invariants, with a file for each kind of thread; Balance/Totals, Reports and
--   Routes/Dispatch what they come to.
-- - Harness: `ScenarioConfig` and `validateScenarioConfig`. Harness/Run: the threads of
--   `runScenario`, with Balance and Ends for their invariant. Harness/Scenario: the function
--   and its result; Harness/Run/Reports what it reports. Cli: `parseArgs`, with
--   Cli/PipelineMain and Cli/ScenarioMain for the options of the two programs.
-- - Index: the types of `Types.h`, `int` values and `sortEntries`. Index/Stream: `binFile_`
--   with `readInt`, `writeInt` and the seeks. Index/BPlusTree: `getMetadata`, `writeMetadata`;
--   its Blocks `readLeaf` to `writeInternal`, Search `getPath`, `search`, `rangeSearch` and the
--   keys of `print`, Insert `insert` and what it calls. Index/InputParser: `InputParser.cpp`.
--   Index/Commands: `b+tree.cpp`.
-- - Index/Order: sorted entries. Index/BPlusTree/Nodes: which node stands at a block, with
--   Reading and Writing for what access does, and Exact for where the file ends. Kids, Subtree
--   and Invariant: when a file holds a tree. Focus and Descent: the child that a key leads to.
--   Reach, Lookup and Range: searches. Reading: what reads the tree leaves the file's bytes.
--   Insert/Path: `insert` as a recursion on the levels; Insert/Leaf, Node and Root: a split of
--   each kind; Insert/Below and Contents: the whole insertion.
-- - Tests: the definitions and the theorems at concrete inputs.
--
-- How concurrency is modelled. A call of a queue is a program counter with the call's locals,
-- and `micro` makes one step of it: one access to a semaphore, a flag, a shared index or a
-- cell, or one whole section under a mutex. A system is the queue and the counters of its
-- threads; a step is one step of one thread, or a thread that has returned makes another call.
-- So every order of these accesses is a run. A push on the ring for one producer stores its
-- `tail_` in one step and reports its depth in a later one. Memory is sequentially consistent:
-- the release and acquire orders of the code are taken to give that for the data they guard. A
-- relaxed counter is bumped in the step next to it. The caller's stop flag is settled anew in
-- every step, as is whether a semaphore's `try_acquire` fails spuriously. A condition variable
-- counts the waiting threads and the notifications they have not used; a wait may end when
-- there is one, or spuriously. A push enters its event in the step that makes it visible, a pop
-- leaves with its event in the step that takes it.
--
-- How the pipeline is modelled. The threads of `pipeline.cpp` and `harness.cpp` use a queue
-- through its contract: a list of events with a capacity and a flag, a push that appends or
-- refuses, a pop that takes the oldest event or ends when the queue is closed or stopped. A pop
-- of the queue under one mutex decides in one step; that of the others finds the queue empty in
-- one step and loads the flag in another, as the code does, and where a semaphore counts the
-- events it may take a queue for empty that is not. A thread is a program counter with its
-- locals, a step ends with at most one access to what is shared, and a schedule says whose step
-- comes next and gives the clock's readings, the outcome of a push that can have either, and
-- whether a semaphore hands out an event that is there; any schedule is a run. A step that
-- waits cannot be made. In `pipeline.cpp` a loop may throw at any point; the exceptions are
-- numbers. Latencies and times are whole nanoseconds, without overflow, except where
-- `simulateWork` converts its unsigned time to a signed one; the interval of a rate, a floating
-- point computation, is given. The statistics that the queues end with are given too.
--
-- How the B+ tree is modelled. An `int` is its 32-bit pattern, a number below 2^32, and `rank`
-- is its place in the order of `int`. The file is a function from places to bytes with a size,
-- a position and a failure flag; integers stand with the lowest byte first, as on the machines
-- the program is built for. A tree is a predicate on the file: nodes at blocks, each block used
-- once, the keys of each child between its separators, the leaves chained from left to right.
-- Its keys differ and are not 0, which stands for an empty place; block numbers stay below
-- 2^31. The files of a run have different names. Every command hands on the file as its tree
-- leaves it.
--
-- The constructors of the two rings take the `max_size()` of `std::vector<Event>`, a parameter,
-- and throw above it. Running out of memory is not modelled.
--
-- Bounds. A range search is on fuel for the leaves it visits, more than the number of blocks is
-- enough, as its theorem states. Printing a number is on fuel for its digits, ten are enough.
-- Counters are modulo 2^64; the capacities of the rings and of a bounded linked queue are below
-- 2^63, the range of a semaphore. `solo` runs a call alone on fuel: five steps are enough for a
-- push and three for a pop that do not wait, as the theorems state. The loop of
-- `updateMaxDepth` reads the outcome of each weak compare-exchange from a list. The loop of
-- `destroyNodes` is on fuel, one turn more than there are queued events. A thread's waiting is
-- not bounded: it is a step that leaves the call where it is.
--
-- Not modelled: the text output of the two measuring programs; error messages; what becomes of
-- a tree whose keys repeat; the repository's SQL, shell, Python and Java experiments. The
-- theorems on the linked queue are on a bounded one. `std::sort` is an insertion sort;
-- durations are whole numbers of the unit of their type.
pub mod Base
pub mod Queue
pub mod Cli
pub mod Pipeline
pub mod Harness
pub mod Index
mod Tests
