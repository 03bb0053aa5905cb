-- ===== src/Lib.antt =====
-- The Cilk runtime of this repository (directory runtime): workers that run frames, keep them on a
-- shadow stack, and steal them from each other.
--
-- The parts and how they interact. A worker pushes the parent frame at a spawn and pops it at the
-- return; a thief takes the oldest frame by the THE protocol, under the lock of the victim's ready
-- deque. A deque holds the closures of a worker, the stolen frames among them. Each strand has a map
-- of reducer views, which are indexed by ids; where strands join, their maps are merged from left to
-- right. Closures, fibers and maps come from an allocator with a free list for each worker and size.
--
-- Files, and the sources that they model:
--   Base: tests on numbers, lists, counting, fallible calls, and signed integers (Base/Int).
--   Runtime: the store of the runtime, runtime/closure.h, runtime/readydeque.h and
--     runtime/cilk-internal.h: struct Closure, ReadyDeque, __cilkrts_worker and
--     __cilkrts_stack_frame are the records Closure, ReadyDeque, Worker and Frame, a pointer is an
--     address or `none`, and CILK_ASSERT is `check` in a monad whose calls end in `ok`, `bug` or
--     `blocked` (a lock that another worker holds).
--   Deque: runtime/readydeque.c, a definition for each of its functions, under the same name.
--     Deque/Links says that the closures between top and bottom are linked as a sequence is;
--     Deque/Frame that other deques are not touched; Deque/Top, Deque/Bottom and Deque/Push are
--     about the three operations that change a deque.
--   Closure: runtime/closure.c, `Closure_add_child` as `closure_add_child` and so on; Closure/Callee
--     has the callees, the suspension and the end of a closure, Closure/Children, Closure/Lock and
--     Closure/Suspend what is shown of them.
--   Dekker: `__cilkrts_detach` (runtime/cilk2c_inlined.c), `__cilkrts_leave_frame`
--     (runtime/cilk2c.c), and `Cilk_exception_handler`, `do_dekker_on` and the head's update in
--     `promote_child` (runtime/scheduler.c), as a relation `Step`, one access to a shared variable a
--     step. Dekker/Invariant and Dekker/Moves have the invariant, Dekker/Safety and Dekker/Progress
--     what follows from it.
--   Scheduler: runtime/scheduler.c over the store of Runtime, each function under its name in lower
--     case. Scheduler/Resume, Turns and Return have the return protocol, Stacklet and Steal the steal,
--     and Run `Cilk_sync` and the loop of a worker, whose places are `Place`; a function that ends in a
--     jump ends where the jump is. `Services` is what it calls beside the store. The other children
--     have the proofs: Handler, Fail, Slots and Loops, Good, Oldest; for `Cilk_sync` Suspend, Entered,
--     Sync, Joining and Ready; and for a whole `Closure_return` Pair, Exceptions, Views, Unlink, GoOn, HandOver,
--     LastChild and ReturnOnly.
--   Abi: what compiled code calls, runtime/cilk2c_inlined.c and runtime/cilk2c.c, without the prefix
--     `__cilkrts_`, over the store of Runtime. Abi/Spawn is about a spawn without a steal, and
--     Abi/Callbacks has the callbacks of runtime/cilk2c.c and runtime/init.c.
--   Join: `Closure_return`, `Closure_steal` and `Cilk_sync` of runtime/scheduler.c again, as far as
--     they pass maps and exceptions between parallel strands, as steps of any number of children in
--     any order. Join/Spec is the serial order, Join/Refine the refinement, Join/Loop and Join/Lost are
--     about the loops, and Join/Maps takes the maps of Reducer/Map for the views.
--   Fibers: runtime/fiber-pool.c, the pool of one worker and the pool that the workers share; an
--     access outside the array of a pool is a failure. Fibers/Bounds, Fibers/Batch and Fibers/Return
--     show that there is none.
--   Reducer/Map: runtime/cilkred_map.c, and `__cilkrts_internal_merge_two_rmaps` of
--     runtime/reducer_impl.c. Reducer/Map/Wf is the invariant of a map, the other children are about
--     the merge.
--   Reducer/Ids: the id manager of runtime/reducer_impl.c. Reducer/Hyper has the hyperobjects of the same
--     file, `__cilkrts_hyper_create` as `hyper_create` and so on; Reducer/Reuse and Reducer/Map/Twice
--     are about an id that is given out again.
--   Malloc: runtime/internal-malloc.c; Malloc/Pool is the global pool, Malloc/Worker the allocator of
--     a worker, Malloc/Balance the accounts, and Malloc/Take, Malloc/Batch, Malloc/Correct,
--     Malloc/Give and Malloc/Free go from a block to a whole call.
--   Startup: the start of the runtime. Startup/Options has runtime/global.c, each function under its
--     name; Startup/Boot has `__cilkrts_startup` of runtime/init.c with `workers_init` and `deques_init`, over
--     the store of Runtime, the pools of Fibers and the id manager of Reducer/Ids; Startup/Pin has
--     `threads_init`, whose sets of processors are in Startup/CpuSet; Startup/Config has
--     `cilk_cfg_from_env` of runtime/cilk2c.c over lists of characters; Startup/Region has the flags by which
--     `invoke_cilkified_root`, `wait_until_cilk_done`, `exit_cilkified_root`, `scheduler_thread_proc` and
--     `__cilkrts_stop_workers` of runtime/init.c start and end a Cilkified region, one access a step.
--     Their children have the proofs.
--
-- Bounds and fuel. `unsigned` arithmetic is modulo 2^32 where the source wraps around (the index of
-- the chunk list starts at -1, `reducer_id_get` fails with ~0). Loops over arrays are recursion on
-- their length. The loops of `cilk_internal_free` and `cilk_internal_malloc_per_worker_terminate`
-- run on fuel, one more than the length of the list that they shorten; each turn takes at least one
-- block away, and where fuel ran out the call would fail. The loops of `Closure_return` have two turns
-- where no other worker moves. A walk along `call_parent` and `promote_own_deque` take their fuel as an
-- argument.
-- The scan for the next processor in `threads_init` has one turn for each bit of a `cpu_set_t`, and the
-- loops over tokens in `cilk_cfg_from_env` one turn for each character and one more; each token has a
-- character at least, and where fuel ran out the call would fail.
--
-- Not modelled: memory orders weaker than sequential consistency, the blocks that the system gives
-- (a parameter of the allocator), the reduce functions of the user (a parameter of the maps), the
-- stacks of fibers, what a jump into user code does, shutdown, debugging output, and the programs
-- and libraries beside the runtime.
pub mod Base
pub mod Runtime
pub mod Deque
pub mod Closure
pub mod Scheduler
pub mod Abi
pub mod Reducer
pub mod Join
pub mod Malloc
pub mod Fibers
pub mod Dekker
pub mod Startup
