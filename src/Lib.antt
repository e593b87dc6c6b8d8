-- ===== src/Lib.antt =====
-- A verification library for the course projects of this repository: the three exec projects of cs614,
-- the grid search, the prefix sums and a hash table of cs610, the decomposition of cs633, and the race
-- detectors, the Bloom filter, the lock-free queue and the concurrent hash table of cs636.
--
-- Parts and files
--
-- - Teardown: cs614/exec_memory_teardown_opt/src/time.c, the module that hands the last mmput of an
--   address space to a kernel thread. Teardown/State holds the globals (tunables, counters,
--   mm_work_list, a store of mm_struct by address) and the calls made into the rest of the kernel;
--   Teardown/Handler the probe mmput_pre_handler, and mmput and __mmput of
--   cs614/multi_thread_opt/kernel_modification/kernel/fork.c behind it; Teardown/Worker the worker
--   mm_destroy_worker and the loop of async_mm_exit; Teardown/Sysfs the stores; Teardown/Lifecycle
--   async_mm_init and async_mm_exit. Proofs: Deferral, Drain, Leak.
-- - Hook: cs614/multi_thread_opt/exec_hook.c, the tracer of exec, with the wrappers of
--   kernel_modification/fs/exec_timing.h. Hook/State holds the globals and the lengths of the lines,
--   Hook/Trace my_enter and my_exit, Hook/Sysfs the stores and the loading. Proofs: Balance, Log over
--   the call trees of Tree, and Buffer.
-- - Exec: cs614/multi_thread_opt/kernel_modification, the exec of one thread among others. Exec/State
--   holds a thread group: its threads by number, what signal_struct keeps and the project's switches;
--   Exec/Exit the parts of do_exit (kernel/exit.c) and get_signal that touch it; Exec/Dethread
--   zap_other_threads (kernel/signal.c), exchange_tids (kernel/pid.c) and de_thread (fs/exec.c), cut
--   where it sleeps; Exec/System the steps of all the threads. Proofs: Members and Zap count threads;
--   Invariant and Waits keep the count; Complete, Rank and Ends, TakeOver,
--   Zombie, Hang and Parked conclude.
-- - Grid: the grid search of cs610/assignment3, gridloopsearch in questions/problem4-v0.c and
--   problem4/problem4-v0-p1.c. Grid/Search holds the two versions, and Examples runs them.
-- - Stencil: cs633/solution/src.c, the grid that MPI processes share. Stencil/Decomposition holds the
--   tests of main and compute_decomposition; Cube the layout of allocate_3d_array; Exchange
--   exchange_boundary_data, for the three directions by one function; Extrema find_minima_maxima; Step
--   what main does of the file and in the loop over the time steps. The proofs are in Place (ranks and
--   places), Blocks and Neighbors; in Links, Faces and Halo (the exchange), Scan, Edges and Beside (what
--   a point is compared to), Counts, Global and Totals (the counts), Best and Range (the extremes);
--   Results concludes.
--
-- - Bloom: cs636/assignment2/problem3/241110079.h, a Bloom filter with striped locks. Bloom/Filter holds
--   the hash functions and the operations; the proofs are in Membership and Interleave (what is found),
--   Locks and Stats.
--
-- - Probe: cs614/exec_memory_teardown_opt_2/time.c, the module that times exec and the teardown after
--   it. Probe/Handlers holds the globals and the handlers, Probe/Lifecycle loading and unloading;
--   Probe/Pairing proves what a return prints.
-- - Race: cs636/assignment1/241110079, the detectors DJIT+ and FastTrack. Race/Clocks holds what
--   commonutil.h has of clocks and races, Race/Djit djit.h; Race/Seen counts, beside the detector, the accesses that a
--   thread or a lock knows of. The proofs are in Sync, Agree, Kept and Exact (what is found).
--   Race/FastTrack holds fasttrack.h, a byte of an access in Steps and a trace in Run, and runs it.
--
-- - Queue: cs636/assignment2/problem2/241110079.h, the lock-free queue. Queue/Word holds the packed
--   pointers, State the nodes and where a thread stands, Move one access of enq or deq, System the
--   threads and the list that an observer sees. The proofs are in Invariant, Frame, Keeps and Accesses;
--   Linear follows a run, Tags its tag of the head, Walk holds toString and the destructor, Solo a call that runs alone, and
--   Safety is about delete.
--
-- - HashTable: cs636/assignment2/problem1/241110079.h, the hash table with batches. HashTable/State holds
--   the table and its pools, Operations the batches, Resize check_and_resize, Destroy
--   destroy_hash_table. The proofs are in Chain, Find and Effects; Batches compares the table with a map,
--   Nodes counts the nodes, and Resize/Loss follows the walk of the resize.
--
-- - Prefix: cs610/assignment3/problem2/problem2.cpp, prefix sums with vector instructions.
--   Prefix/Reference holds ref_version, Vectors the instructions as a parameter, Sse sse4_version and Avx
--   avx2_version; the proofs are in Vectors (the sums within four lanes), Sse, Avx/Lanes and Avx/Agree.
--
-- - OpenTable: cs610/assignment5/problem1/hash_table.h and hash_table.cpp, a hash table with open
--   addressing. OpenTable/State holds the table and its hash functions, Operations the operations, and
--   Finds proves what a lookup finds after an insertion.
--
-- How the code is modelled
--
-- A function of the C code that changes globals takes the state and returns the new one. Pointers to
-- an mm_struct are addresses into a store. Atomic counters of 32 bits keep their wrap-around; the
-- statistics (64 bits, and raised by one) and times are plain numbers. mmgrab and mmdrop, which are not
-- in the repository, are a parameter with the law that one undoes the other. What the kernel answers
-- (kmalloc, si_meminfo, the clock, registrations, sscanf and kstrtoint) is an argument. Calls into code
-- that is not in the repository are recorded in order. Locks are not modelled: what a lock protects is
-- one step. Loops over lists recur on the list. digits_from takes fuel, 20 rounds for numbers below
-- 10 ^ 20, which covers 64 bits; the other bounds on turns are named below.
--
-- In Teardown, a call of mmput with the probe is one function and a turn of the worker another; the two
-- do not interleave. A turn has a round of its loop for each entry that it finds, which empties the list.
--
-- In Exec, a step is a stretch of code that runs under a lock or touches one thread; threads interleave
-- in any order. A thread is the thread group leader when its group_leader is itself. A leader is not
-- released while other threads are in the group, as in release_task. A SIGKILL comes from
-- zap_other_threads or is there at the start. What transfer_pid rehashes, the lists of tasks and
-- siblings, wake-ups of a tracer, accounting and the printing are not modelled.
--
-- In Grid, the ten axes and the ten rows of coefficients are lists, the ten loops one recursion over the
-- axes, and double is a parameter. Version p1 adds in another order than version 0, so that the two need
-- not agree in floating point. A result is the points that are printed and their number. Version p2 is not
-- modelled: the order of what it prints is not defined.
--
-- In Stencil, the arguments are natural numbers. local_size and flat_index are words of 32 bits that
-- wrap around, a pattern from 2 ^ 31 on being negative, and what is in a buffer there is not known;
-- BlocksFit says that the floats of a block number less than that. MPI_PROC_NULL is `none`. All processes run together: a function of a process takes and gives a family over the ranks.
-- MPI is a parameter: what a collective read through a file view, MPI_Sendrecv and MPI_Reduce are
-- documented to do are the hypotheses Reads, Delivers, Adds and Picks. The floats are a parameter with
-- their comparisons, and are not NaN. Buffers are functions of the index; what malloc gives is a
-- parameter. Opening the file, failed allocations, the timing and write_output are not modelled.
--
-- In Bloom, an operation is the list of its calls and assignments, and threads interleave these; an
-- assignment to a byte of the bit array is one step, since it is made under the lock of its stripe.
-- That pthread_mutex_lock waits is not modelled, nor are the printing and the estimate of print_stats.
--
-- In Race, a trace is a list of lines that are classified already: the regular expressions are not
-- modelled. Addresses, of locks too, are numbers, and threads_map and locks_map one map by the kind of
-- the key; an entry beyond max_threads is not raised. djit and fasttrack count the threads as
-- getMaxThreads does: the lines of a thread that begins, the first thread included. Times are plain
-- numbers. In FastTrack, what a variable that is not initialised holds is a parameter.
--
-- In Probe, a call that is probed has a number, by which its data are kept from the entry to the return;
-- the kernel's limit of 20 such calls is not modelled. What is printed is a list of messages.
-- target_pid is a natural number, and the -1 it starts with one that no task has.
--
-- In Queue, a step is one access to shared memory, in any order over any number of threads. A step that
-- would access a deleted node, or one that was never made, does not exist: what is proved of a run holds
-- up to the first such access. new gives 48-bit addresses that are not in use, perhaps again;
-- NeverReuses says of a run that it gives none again that was given back, and the properties are about
-- such runs, since enq loses values in others (Queue/Examples runs one). Weak exchanges may fail for no reason, but for a call that runs alone. toString and the destructor take a bound on
-- their turns; one turn more than there are nodes to visit is enough. Memory orders weaker than
-- sequential consistency are not modelled.
--
-- In HashTable, the iterations of a parallel loop run one after the other, so that locks and the pools of
-- other threads are no matter; double is a parameter, with the hypothesis that the primary hash is below
-- the number of buckets. A chain is the list of its packed pairs, and the batches stop where
-- check_and_resize starts to move nodes; in Resize a chain is nodes at addresses, and the walk along it
-- takes a bound on its turns, since it may not end. toString is not modelled.
--
-- In Prefix, the vector instructions are a parameter, and what is documented of each lane is a hypothesis
-- (AreLanes, IsSse4, IsAvx2). An int is a word of 32 bits that wraps around. A loop is a recursion on the
-- number of iterations done. omp_version, which is the reference with pragmas, is not modelled.
--
-- In OpenTable, every operation is one step, since it holds the one lock; a capacity is below 2 ^ 32. The comparison of the load with
-- a float is a parameter. A loop over the tries recurs on the tries that are left, and the search of
-- resize takes a bound. The hash functions that are not called and print_table are not modelled.
pub mod Bloom
pub mod Exec
pub mod Grid
pub mod HashTable
pub mod Hook
pub mod OpenTable
pub mod Prefix
pub mod Prelude
pub mod Probe
pub mod Queue
pub mod Race
pub mod Stencil
pub mod Teardown
