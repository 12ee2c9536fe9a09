-- ===== src/Lib.antt =====
-- The course repository holds the C programs of four assignments. This library is a model of the
-- parts with the most logic of their own: the directory walk of PA2, the memory manager of PA3,
-- with the data segment below it and the block list of its tests, the job control of the shell of
-- PA4, with its signal handlers, built-in commands and pipes, and the line transfer, the burger
-- server and its client of PA5.
--
-- JobControl: PA4/src/jobcontrol.c and jobcontrol.h. The job list is a list of records, newest
-- first; each function of the file has the definition of the same name. The comparison and print
-- functions are values. JobControl/Ids and JobControl/Update hold the lemmas on ids and on writes
-- through a job pointer.
--
-- Shell: PA4/src/csapsh.c. Signals is the signal handlers and waitfg: a handler takes the reports
-- of waitpid and the job list and returns the new list with the signals sent, or none for a read
-- through a null pointer. Builtin is builtin_cmd and do_bgfg. Pipes is the set-up of a child in
-- eval: the list of calls it issues before execvp. Parser is parse_cmdline of PA4/src/parser.c, on
-- the bytes of its buffer up to the null byte; Parser/Results follows one round of its loop and
-- Parser/Returns the loop. Eval is eval itself: the process ids of fork, and the reports that
-- arrive while the shell waits for a job or in front of the line it prints, are an argument; none
-- arrive while a built-in command changes the list. Eval/Foreground and Eval/Prompt say which jobs
-- are in the foreground meanwhile, Eval/Jobs is its loop and Eval/Line a whole line. Main is main:
-- its options and its loop, one round for each line that fgets reads; Main/Sessions follows it.
-- The handlers and the commands share the job list, and the invariant Inv of Shell/Signals/Reap is
-- the interface between them.
--
-- DataSeg: PA3/src/dataseg.c. The globals are a record; mmap, mprotect and the page size are
-- parameters. An assertion or PANIC is the outcome aborts.
--
-- MemMgr: PA3/src/memmgr.c, from the macros on words (Words) over the free block searches, place
-- and merge (Blocks) to the operations that move the break (Manager) and mm_init (Init). Tiles
-- says what blocks the memory holds between the sentinels; Heap is the invariant between two
-- calls: these blocks, the sentinels, and the end of the heap at the break. BestFit, Place, Merge,
-- Coalesce, Extend and Obtain follow one operation each, and Free and Malloc put them together.
-- Realloc is mm_calloc and mm_realloc, Resize the branches in place, and Check is mm_check. Held
-- is about the allocated blocks and their contents: Held/Calls what mm_malloc and mm_free leave
-- alone, Held/Calloc and Held/Move what mm_calloc and the moving branch of mm_realloc do,
-- Held/Resized every branch of mm_realloc. Session has any sequence of the four calls, and
-- Session/Runs the inductions on it. FreeList is the explicit free list in memory, from first to
-- last: FreeList/Update and FreeList/Remove are about add_free_block and remove_free_block,
-- FreeList/Search about the search along it. FreeList/Sync says that the free list holds exactly
-- the free blocks of the heap, and FreeList/Steps and FreeList/Retile what keeps that;
-- FreeList/Place and FreeList/Merge are place and the merge of coalesce under the explicit policy.
--
-- BlockList: PA3/src/blocklist.c. The list between the sentinels is a list of records; Order is
-- about its order and its searches.
--
-- Net: PA5/src/net.c. get_line, put_data and put_line take the answers of recv and send as an
-- argument; a call whose answers are used up still waits. Lines is about get_line, Transfer about
-- put_data, and RoundTrip about put_line and get_line together.
--
-- McDonalds: PA5/src/mcdonalds.c, with PA5/src/burger.h and burger.c, and PA5/src/client.c. Orders
-- is the order list with its nodes in memory. Request is how serve_client reads a request, and
-- make_burger; Customer is the request that client.c writes. Threads has one step function for
-- each kind of thread, kitchen_step, client_step and server_step: a step is what a thread does
-- under one lock or between two accesses to what is shared. System runs any sequence of such
-- steps, of 50 kitchen threads and any number of clients. System/Steps is the induction on runs;
-- Burgers, Cooking and Issuing follow the burgers of a request through one step, Ready and Waking
-- the signals; Work, Queueing and Complete put them together. A wait may also end without a
-- signal, which the theorems on remain_count exclude: its client then frees a request that is in
-- use. malloc succeeds, and what is freed is not used again. A node keeps all fields but the link,
-- so a kitchen thread holds a copy of them.
--
-- DirTree: PA2/src/dirtree.c. The file system below a path is a tree: an entry has what readdir
-- and lstat give for it and what opendir finds at its path. Process is processDir, which calls
-- itself through Recursion. Process/Counts says what the entries are to add to the summary,
-- Process/Totals that they do, Main is main, with its options, and Main/Sums its grand total;
-- Order is about dirent_compare and Names about abbreviateFileName. process_dir runs on fuel, one
-- more than the directories that lead into each other; the theorem takes fuel up to 25, the depth
-- to which names fit into their buffer.
--
-- Bounds and fuel: addresses are numbers below 2 ^ 64 and the arithmetic of the source wraps; an
-- int is its 32-bit pattern. Memory is a function from addresses to words, so accesses that
-- overlap in part are not modelled; every access of the manager is to a multiple of eight. The two
-- free block searches run on fuel, with more rounds than the heap has words, which the theorem on
-- the search shows to be enough under the implicit policy. The loop of parse_cmdline has fuel for
-- three rounds more than its buffer has bytes: a round uses a byte, or is at the null byte, where
-- from the third round on every round adds an empty argument and nothing else.
--
-- Not modelled: log output, perror and errno; the results of kill; setpgid, execvp and the
-- installation of handlers in the shell; how PA2/src/dirtree.c formats a line; the address
-- functions of PA5/src/net.c, the set-up of sockets and threads and the printed messages of
-- PA5/src/mcdonalds.c and client.c; the test programs. The theorems on the memory manager are for
-- the implicit policy, except for those on the explicit free list, on place and on the merge of
-- coalesce.
pub mod Base
pub mod JobControl
pub mod Shell
pub mod DataSeg
pub mod MemMgr
pub mod BlockList
pub mod Net
pub mod McDonalds
pub mod DirTree
pub mod Tests
