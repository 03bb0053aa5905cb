-- ===== src/Startup/Boot.antt =====
-- `__cilkrts_startup` of runtime/init.c: the workers, their deques and pools of fibers, the id
-- manager, and the root closure. The addresses of the root closure, of its fiber, and of the fibers
-- in the pools (`make n` is the n-th one made) are parameters, so that the state of the allocator is not
-- part of it; `none` is a failed assertion.
pub mod Started
use multicilk.Base.{ℕ, zero, suc, ◌+◌, Bool, true, false, Option, none, some, ◌==◌, update}
use multicilk.Base.Int.{ℤ}
use multicilk.Base.Fallible.{◌>>=◌, ◌>>◌, assert}
use multicilk.Runtime.{no_worker, Worker, WorkerState, ReadyDeque, State, Outcome, ok, bug, blocked}
use multicilk.Closure.{closure_create}
use multicilk.Fibers.{
  FiberPool, Pools, cilk_fiber_pool_global_init, cilk_fiber_pool_per_worker_init,
}
use multicilk.Reducer.Ids.{IdManager, init_reducer_id_manager}
use multicilk.Reducer.Hyper.{Hyper, reducers_import}
use multicilk.Startup.Options.{GlobalState, Environment, global_state_init}

-- The runtime after its start: `fiber_pools` are those of the workers, `fiber_pool` is the shared
-- one, and `made` counts the fibers that were made.
pub record Boot (A : Type 0) : Type 0 where
  pub g : GlobalState
  pub store : State
  pub fiber_pools : ℕ → FiberPool
  pub fiber_pool : FiberPool
  pub made : ℕ
  pub hyper : Hyper A

-- `worker_local_init`, and the fields of the worker that `workers_init` sets: memory from `calloc`, with an
-- empty shadow stack whose head is its second slot.
unfoldable pub worker_local_init : GlobalState → Worker
worker_local_init g = record {
  tail = 1;
  head = 1;
  exc = 1;
  ltq_limit = g.options.deqdepth;
  shadow_stack = λ _. none;
  current_stack_frame = none;
  reducer_map = none;
  state = WorkerState.idle;
  lock_wait = false;
  provably_good_steal = false;
  fiber_to_free = none;
  rand_next = 0;
}

abbrev pub empty_deque : ReadyDeque
empty_deque = record { locked = false; top = none; bottom = none; mutex_owner = no_worker }

-- `deques_init`, `n` turns from `i` on.
unfoldable pub deques_init : ℕ → ℕ → (ℕ → ReadyDeque) → ℕ → ReadyDeque
deques_init zero i deques = deques
deques_init (suc n) i deques = deques_init n (i + 1) (update deques i empty_deque)

-- What the loop of `workers_init` changes.
pub record Workers : Type 0 where
  pub workers : ℕ → Worker
  pub fiber_pools : ℕ → FiberPool
  pub fiber_pool : FiberPool
  pub made : ℕ

-- One turn of the loop.
unfoldable pub worker_init : (ℕ → ℕ) → GlobalState → ℕ → Workers → Option Workers
worker_init make g i ws = do
  pools ←
      cilk_fiber_pool_per_worker_init make i g.options.stacksize g.options.fiber_pool_cap
        ws.fiber_pool ws.made
  some (record {
    workers = update ws.workers i (worker_local_init g);
    fiber_pools = update ws.fiber_pools i pools.own;
    fiber_pool = pools.parent;
    made = pools.made;
  })

unfoldable pub workers_init : (ℕ → ℕ) → GlobalState → ℕ → ℕ → Workers → Option Workers
workers_init make g zero i ws = some ws
workers_init make g (suc n) i ws = do
  next ← worker_init make g i ws
  workers_init make g n (i + 1) next

-- The store that a call which runs to its end leaves.
abbrev pub store_after : {B : Type 0} → Outcome B → Option State
store_after (ok b s) = some s
store_after bug = none
store_after blocked = none

-- REDUCER_LIMIT
abbrev pub reducer_limit : ℕ
reducer_limit = 1024

-- The memory before the start.
pub record Raw (A : Type 0) : Type 0 where
  pub store : State
  pub fiber_pools : ℕ → FiberPool
  pub id_num : ℕ → ℕ
  pub leftmost : ℕ → A

module _ {A : Type 0} where
  -- `__cilkrts_startup`, after `global_state_init`. No worker has a map of views yet.
  unfoldable pub startup_from : (ℕ → ℕ) → Option ℕ → ℕ → Raw A → GlobalState → Option (Boot A)
  startup_from make root fiber raw g = do
    manager ← init_reducer_id_manager reducer_limit
    ws ← workers_init make g g.options.nproc 0 (record {
      workers = raw.store.workers;
      fiber_pools = raw.fiber_pools;
      fiber_pool = cilk_fiber_pool_global_init g.options.stacksize g.options.fiber_pool_cap;
      made = 0;
    })
    assert (0 == g.exiting_worker)
    hyper ←
        reducers_import raw.leftmost
          (record { id_num = raw.id_num; manager = manager; reducer_map = none })
    s ← store_after (
        closure_create root (record raw.store {
          workers = ws.workers;
          deques = deques_init g.options.nproc 0 raw.store.deques;
          root_closure_initialized = g.root_closure_initialized;
          done = g.done;
          nworkers = g.nworkers;
        }))
    t ← root
    some (record {
      g = g;
      store = record s {
        closures = update s.closures t (record (s.closures t) { fiber = some fiber });
        root_closure = some t;
      };
      fiber_pools = ws.fiber_pools;
      fiber_pool = ws.fiber_pool;
      made = ws.made;
      hyper = hyper;
    })

  unfoldable pub startup : (ℕ → ℕ) → Option ℕ → ℕ → Raw A → Environment → ℤ → Option (Boot A)
  startup make root fiber raw env argc = do
    g ← global_state_init env argc
    startup_from make root fiber raw g
