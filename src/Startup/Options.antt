-- ===== src/Startup/Options.antt =====
-- runtime/global.c: the options of the runtime, read from the environment, and the first state of
-- `struct global_state` (runtime/global.h).
pub mod Bounds
use multicilk.Base.{
  ℕ, suc, ◌-◌, ◌*◌, ◌^◌, ◌%◌, Bool, true, false, not, ◌&&◌, Option, none, some, ltb, leb, ◌==◌,
  if◌then◌else◌,
}
use multicilk.Base.Int.{ℤ, pos, negsuc}
use multicilk.Base.Fallible.{assert, ◌>>=◌, ◌>>◌}
use multicilk.Startup.CpuSet.{CpuSet, cpu_count}

-- A signed integer as an unsigned one of `w` bits.
unfoldable pub to_unsigned : ℕ → ℤ → ℕ
to_unsigned w (pos n) = n % 2 ^ w
to_unsigned w (negsuc n) = 2 ^ w - suc (n % 2 ^ w)

-- `struct rts_options`
pub record RtsOptions : Type 0 where
  pub stacksize : ℕ
  pub nproc : ℕ
  pub reducer_cap : ℕ
  pub deqdepth : ℕ
  pub fiber_pool_cap : ℕ
  pub force_reduce : ℕ

-- DEFAULT_OPTIONS
abbrev pub default_options : RtsOptions
default_options = record {
  stacksize = 0x100000;
  nproc = 0;
  reducer_cap = 1024;
  deqdepth = 1024;
  fiber_pool_cap = 128;
  force_reduce = 0;
}

-- Of `struct global_state`, the options and the fields that say how far the start has come.
pub record GlobalState : Type 0 where
  pub options : RtsOptions
  pub nworkers : ℕ
  pub workers_started : Bool
  pub root_closure_initialized : Bool
  pub start : Bool
  pub done : Bool
  pub cilkified : Bool
  pub terminate : Bool
  pub exiting_worker : ℕ
  pub reducer_map_count : ℕ

-- What the system answers: `env_get_int` of the variables CILK_STACKSIZE, CILK_DEQDEPTH,
-- CILK_FIBER_POOL and CILK_FORCE_REDUCE, the mask of the process (`none` is an error), and
-- `sysconf(_SC_NPROCESSORS_ONLN)`.
pub record Environment : Type 0 where
  pub cilk_stacksize : ℤ
  pub cilk_deqdepth : ℤ
  pub cilk_fiber_pool : ℤ
  pub cilk_force_reduce : ℤ
  pub process_mask : Option CpuSet
  pub online : ℤ

-- `global_state_allocate`: memory that is all zero.
abbrev pub global_state_allocate : GlobalState
global_state_allocate = record {
  options = record {
    stacksize = 0;
    nproc = 0;
    reducer_cap = 0;
    deqdepth = 0;
    fiber_pool_cap = 0;
    force_reduce = 0;
  };
  nworkers = 0;
  workers_started = false;
  root_closure_initialized = false;
  start = false;
  done = false;
  cilkified = false;
  terminate = false;
  exiting_worker = 0;
  reducer_map_count = 0;
}

unfoldable pub set_stacksize : GlobalState → ℕ → Option GlobalState
set_stacksize g stacksize = do
  assert (not g.workers_started)
  assert (leb 16384 stacksize)
  assert (leb stacksize (100 * 1024 * 1024))
  some (record g { options = record g.options { stacksize = stacksize } })

unfoldable pub set_deqdepth : GlobalState → ℕ → Option GlobalState
set_deqdepth g deqdepth = do
  assert (not g.workers_started)
  assert (leb 1 deqdepth)
  assert (leb deqdepth 99999)
  some (record g { options = record g.options { deqdepth = deqdepth } })

unfoldable pub set_fiber_pool_cap : GlobalState → ℕ → Option GlobalState
set_fiber_pool_cap g fiber_pool_cap = do
  assert (not g.workers_started)
  assert (leb 8 fiber_pool_cap)
  assert (leb fiber_pool_cap 999999)
  some (record g { options = record g.options { fiber_pool_cap = fiber_pool_cap } })

unfoldable pub set_nworkers : GlobalState → ℕ → Option GlobalState
set_nworkers g nworkers = do
  assert (not g.workers_started)
  assert (leb nworkers g.options.nproc)
  assert (ltb g.exiting_worker nworkers)
  some (record g { nworkers = nworkers })

unfoldable pub set_force_reduce : GlobalState → ℕ → Option GlobalState
set_force_reduce g force_reduce = do
  assert (not g.workers_started)
  some (record g { options = record g.options { force_reduce = force_reduce } })

-- `int available_cores`
unfoldable pub cores_of : Option CpuSet → ℕ
cores_of none = 0
cores_of (some mask) = cpu_count mask

-- `nproc` where it was 0: the override, the processors of the process, or those online.
unfoldable pub choose_nproc : ℕ → ℕ → ℤ → ℕ
choose_nproc proc_override cores online =
    if ltb 0 proc_override
    then proc_override
    else (if ltb 0 cores
        then cores
        else elim online [ pos n ↦ if ltb 0 n then n % 2 ^ 32 else 0 | negsuc _ ↦ 0 ])

-- The `if` around each of the three options that take 0 for the default.
unfoldable pub set_unless_zero :
    (GlobalState → ℕ → Option GlobalState) → GlobalState → ℕ → Option GlobalState
set_unless_zero f g v = if ltb 0 v then f g v else some g

-- The last part of `parse_rts_environment`, with CILK_FORCE_REDUCE.
unfoldable pub parse_force_reduce : ℕ → ℕ → GlobalState → GlobalState
parse_force_reduce value proc_override g =
    if value == 0
    then record g { options = record g.options { force_reduce = 0 } }
    else (if proc_override == 1
        then record g { options = record g.options { force_reduce = value; nproc = 1 } }
        else record g { options = record g.options { force_reduce = 0 } })

unfoldable pub parse_nproc : Environment → ℕ → GlobalState → Option GlobalState
parse_nproc env proc_override g =
    if g.options.nproc == 0
    then some (record g {
      options = record g.options {
        nproc = choose_nproc proc_override (cores_of env.process_mask) env.online;
      };
    })
    else (assert (ltb g.options.nproc 10000) >> some g)

unfoldable pub parse_rts_environment : Environment → GlobalState → ℕ → Option GlobalState
parse_rts_environment env g nworkers = do
  g1 ← set_unless_zero set_stacksize g (to_unsigned 64 env.cilk_stacksize)
  g2 ← set_unless_zero set_deqdepth g1 (to_unsigned 32 env.cilk_deqdepth)
  g3 ← set_unless_zero set_fiber_pool_cap g2 (to_unsigned 32 env.cilk_fiber_pool)
  g4 ← parse_nproc env nworkers g3
  some (parse_force_reduce (to_unsigned 32 env.cilk_force_reduce) nworkers g4)

-- `argc` is the number of workers that the caller wants, and 0 for the default.
unfoldable pub global_state_init : Environment → ℤ → Option GlobalState
global_state_init env argc = do
  g ←
      parse_rts_environment env (record global_state_allocate { options = default_options })
        (to_unsigned 32 argc)
  assert (ltb 0 g.options.nproc)
  some (record g {
    nworkers = g.options.nproc;
    workers_started = false;
    root_closure_initialized = false;
    start = false;
    done = false;
    cilkified = false;
    terminate = false;
    exiting_worker = 0;
    reducer_map_count = 0;
  })
