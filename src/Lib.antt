-- ===== src/Lib.antt =====
-- LearnC is a collection of small C programs, each about one subject. This library models those that
-- keep a state of their own and have functions for others to call, and states what these guarantee.
-- The programs do not call each other; each is a module of its own here.
--
-- Paths below are from the repository's root; MEM stands for
-- 1.Demo/1.syntax_interface/15.memory_allocation.
--
-- ImplicitList: MEM/1.allocation_strategy/1.implicit_free_list.c. `Memory` holds the headers of
--   `memory_pool` by offset; `init_memory`, `my_malloc`, `my_free` and `print_state` are the functions of
--   that name. Their loops take a number of rounds, 641 of them: each block has a header of 16 bytes
--   and the pool has 10240, so that no walk over the blocks is longer, and the theorems show that
--   none runs out. Blocks says what a pool is, Live which regions are handed out, Malloc and Free what
--   the two calls do.
-- ExplicitList: MEM/1.allocation_strategy/2.explicit_free_list.c. `Heap` has the fields of `Block` as
--   functions of the offset in `memory_pool`, and `free_list`; the functions have their names. Their
--   loops take 321 rounds: each block has a header of 32 bytes and the pool has 10240, and the theorems
--   show that no walk is longer. Links is about the doubly linked list, Tiles about the blocks that
--   fill the pool, Changes and Resizing about the parts of the two calls, Malloc and Free about the
--   calls, Joined about neighbours that are joined, Reach about what callers reach and `print_state` shows.
-- SegregatedFits: MEM/1.allocation_strategy/3.segregated_fits.c. `Heap` has the fields of `Block` as
--   functions of the offset, and `class_bins`; the functions have their names. The search takes its
--   number of rounds as an argument, since the lists can become rings, for which no number is enough.
--   Points is about where pointers point, Malloc about the search, Reach about what callers reach.
-- BasePool: MEM/2.mem_pool_c/1.base/mem_pool.c. `Pool` is the static data and the bytes of memory; the
--   functions have their names. `pool_lock` is held in each of them from end to end, so that a call
--   is one step. Array is about `active_blocks`, Outcome about the ways a call can end, Counts about the
--   counters, Everywhere and Ownership about where a block is, Guards about the guard bytes, Reuse
--   about blocks that are handed out again.
-- ServerPool: MEM/2.mem_pool_c/3.m_mem_pool/mem_pool.c. `Server` is `mem_pool_srv`, the headers by
--   address and the words of memory. Calls are made one after the other: the locks, which are one for
--   the list in use and one for each class, are not modelled. Whole has the calls about all
--   blocks, Classes is about the size classes,
--   Ownership, Allocating, Releasing and Reach about where a block is, Calls and Guards about
--   what the calls answer, Report about the statistics, the leaks and the end, Listing about the
--   reports after a call. The field `guard_head` of a header is a word of memory, as the tail word is.
-- LabelPool: MEM/2.mem_pool_c/2.upgrade/mem_pool.c, the forerunner of ServerPool. `Pool` is its statics,
--   the headers by address and the words of memory. What the two do with a list of blocks alone
--   is taken from ServerPool. Same compares each call with that of ServerPool, Reach carries over where
--   a block is, Destroy is about the end.
-- ThreadPool: 1.Demo/1.syntax_interface/3.Thread/5.thread_pool/1.thread_pool.c. `Step` has the steps of
--   the threads in `thread_routine`, from one lock, wait or test to the next, and of the main thread in
--   `pool_add_worker` and `pool_destroy`; steps of different threads are taken in any order. Invariant
--   says what holds in every state, Workers and Steps that the steps keep it, Safety what it means;
--   Wakeup is about a wake-up that is lost.
-- BoundedBuffer: 1.Demo/1.syntax_interface/3.Thread/4.semaphore/demo.c. `State` is the ring, the two
--   semaphores and the mutex, and the places of the two threads; `Step` is a step of `producer` or of
--   `consumer`, from one call of the thread library to the next, in any order. Counts says what a place
--   means, Invariant what holds in every state, Safety what it means for the ring, Progress that
--   the threads end.
-- CondVar: 1.Demo/1.syntax_interface/3.Thread/3.cond/1.thread_cond.c. `State` is `share_variable`, the
--   mutex, and the places of the nine consumers and the producer; `Step` is a step of one of them, a
--   signal, or a wait that returns without one, in any order. Counts counts the consumers at a place,
--   Invariant says what holds in every state, Progress that some thread can go on.
-- Blackbox: 1.Demo/3.tools/8.blackbox/blackbox.c and blackbox.h. `BlackBox` is the ring of entries, and
--   a `Disk` is the log file, which is not there or holds an image of the ring. Ring is about one entry,
--   History about many.
-- CfgFile: 1.Demo/1.syntax_interface/7.file_dir_opt/rw_cfg.c. A file is the list of its bytes; `fgets`,
--   `strchr`, `strcspn`, `strtok_r`, `strcmp`, `isspace`, `tolower` and `atoi` are functions on lists of
--   bytes. Reading takes a round for each byte, which is enough since every call of `fgets` takes one.
--   Trim is about `trim_string`, Lines about `fgets`, Parse about one line, Rows about a file, Bools
--   about `parse_bool`.
-- HexText: 1.Demo/1.syntax_interface/10.convert/conv_str_hex.c. A text is a list of bytes, a buffer a
--   function of the index. `flip_loop` takes a round for each byte and one more. What stands in memory
--   behind `c_tmp` is an argument. Flip is about `flip_string`, Digits about one digit, Bytes about the
--   bytes between, RoundTrip about the two conversions.
-- Daemon: 1.Demo/3.tools/1.daemon/daemon/daemon_guard.c. `Worker` is the struct of that name, `Table` is
--   `workers` with its capacity. Watch is about `monitor_workers`, Args about `parse_args`.
-- FixedBins: MEM/1.allocation_strategy/4.slab_style_fixed_size_bins.c. `Bins` is the two free lists, of
--   offsets in the pool. Chunks is about `init_memory`, Reach about what callers reach.
-- Common: the names that the parts share, Boolean tests, lists over the native numbers, texts, and `Run`,
--   the result of code that walks memory: it ends, reads what is not there, or runs out of rounds.
--
-- What the C library returns (`malloc`, `calloc`, `realloc`, `fopen`, `remove`, `time`, `backtrace`) is an
-- argument of the call that uses it; that memory it returns is not in use is a hypothesis where a
-- theorem needs it. A `size_t` is a natural number below 2^64, with its remainder written where the
-- code's sum can pass that. A list that is linked through its elements is a list.
--
-- Not modelled: what is printed beyond the values, dates and call stacks as text; the demonstrations'
-- main functions; the demonstrations of atomic operations and an iterator; and the programs
-- that only show a call of the operating system, the C library, the compiler or the assembler, or are
-- written in C++.
pub mod Common
pub mod ImplicitList
pub mod ExplicitList
pub mod SegregatedFits
pub mod Blackbox
pub mod ThreadPool
pub mod BoundedBuffer
pub mod CondVar
pub mod BasePool
pub mod LabelPool
pub mod ServerPool
pub mod CfgFile
pub mod HexText
pub mod Daemon
pub mod FixedBins
